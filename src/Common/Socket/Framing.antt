-- ===== src/Common/Socket/Framing.antt =====
-- The loop by which a receiver takes whole messages from the front of its buffer, as `recvCallback`
-- has it in trading/order_gw/order_gateway.cpp and exchange/order_server/order_server.h.
use nano_trade.Base.{
  ℕ, zero, suc, ◌+◌, ◌≤◌, ◌<◌, ◌≡◌, refl, sym, ◌∙◌, ap, arith, false, leb, if◌then◌else◌, List, [],
  ◌∷◌, ◌++◌, append_assoc, append-nil, ltb,
}
use nano_trade.Base.Lists.{length, length-append, All}
use nano_trade.Base.Slices.{take, drop, take-append, drop-append, take_all, drop_all}
use nano_trade.Base.Outcome.{Outcome, ok, fault, out_of_fuel, and_then}
use nano_trade.Common.Socket.{Socket, buffer_size, tcp_send}

-- The packed struct `T` in memory: `size` is `sizeof(T)`, `decode` is the `reinterpret_cast`. `IsValue`
-- holds of the values whose numbers fit into the fields of the struct.
pub record Layout (T : Type 0) : Type 1 where
  pub size : ℕ
  pub encode : T → List ℕ
  pub decode : List ℕ → T
  pub IsValue : T → Type 0
  pub size_pos : 1 ≤ size
  pub length-encode : (t : T) → length (encode t) ≡ size
  pub decode-encode : (t : T) → IsValue t → decode (encode t) ≡ t

module _ {T S : Type 0} (l : Layout T) (step : S → T → Outcome S) where
  -- `for (; i + sizeof(T) <= next_rcv_valid_index_; i += sizeof(T))`: what is left of the buffer, and
  -- the owner.
  unfoldable pub take_messages : ℕ → List ℕ → S → Outcome (List ℕ × S)
  take_messages zero bytes x = fault out_of_fuel
  take_messages (suc fuel) bytes x =
      if leb l.size (length bytes)
      then (and_then (step x (l.decode (take l.size bytes)))
          λ y. take_messages fuel (drop l.size bytes) y)
      else ok (bytes, x)

  -- The body of `recvCallback`; a buffer of `n` bytes takes at most `n` rounds.
  unfoldable pub on_bytes : Socket → S → Outcome (Socket × S)
  on_bytes s x =
      if leb l.size (length s.inbound)
      then (and_then (take_messages (length s.inbound + 1) s.inbound x)
          λ (rest, y). ok (record s { inbound = rest }, y))
      else ok (s, x)

  -- What the messages do, one after the other.
  abbrev pub steps : S → List T → Outcome S
  steps x [] = ok x
  steps x (t ∷ ts) = and_then (step x t) λ y. steps y ts

module _ {T : Type 0} (l : Layout T) where
  abbrev pub encode_all : List T → List ℕ
  encode_all [] = []
  encode_all (t ∷ ts) = l.encode t ++ encode_all ts

  -- A buffer with a whole message at its front.
  module _ (t : T) (ts : List T) (bytes rest : List ℕ) (e : bytes ++ rest ≡ encode_all (t ∷ ts))
      (h : l.size ≤ length bytes) where
    pub front : l.IsValue t → l.decode (take l.size bytes) ≡ t
    front v =
        ap l.decode (
          sym (take-append l.size bytes rest h)
          ∙ ap (take l.size) e
          ∙ ap (λ n. take n (l.encode t ++ encode_all ts)) (sym (l.length-encode t))
          ∙ take_all (l.encode t) (encode_all ts))
        ∙ l.decode-encode t v

    pub behind : drop l.size bytes ++ rest ≡ encode_all ts
    behind =
        sym (drop-append l.size bytes rest h)
        ∙ ap (drop l.size) e
        ∙ ap (λ n. drop n (l.encode t ++ encode_all ts)) (sym (l.length-encode t))
        ∙ drop_all (l.encode t) (encode_all ts)

ltb-ge : (a b : ℕ) → b ≤ a → ltb a b ≡ false
ltb-ge a b h = ground arith

-- The state of a receiver between two reads: `bytes` of a message that is not whole wait in its buffer,
-- `todo` are the messages still to come, and they lead to `y`.
pub record Waits {T S : Type 0} (l : Layout T) (step : S → T → Outcome S) (pending : List ℕ) (y : S)
    (bytes : List ℕ) (x : S) : Type 0 where
  pub todo : List T
  pub stream : bytes ++ pending ≡ encode_all l todo
  pub values : All l.IsValue todo
  pub short : length bytes < l.size
  pub leads : steps l step x todo ≡ ok y

-- A message that is written as a sequence number and a body.
pub record Parts {T : Type 0} (l : Layout T) : Type 0 where
  pub head : T → List ℕ
  pub body : T → List ℕ
  pub encode_parts : (t : T) → l.encode t ≡ head t ++ body t

module _ {T : Type 0} {l : Layout T} (p : Parts l) where
  -- `send(&seq_num, sizeof(seq_num)); send(message, sizeof(Message));` for one message after the other.
  unfoldable pub send_messages : Socket → List T → Outcome Socket
  send_messages s [] = ok s
  send_messages s (t ∷ ts) =
      and_then (tcp_send s (p.head t)) λ u. and_then (tcp_send u (p.body t)) λ v. send_messages v ts

  -- With room for them in the buffer, all messages are in it, in order.
  pub send_messages-encode_all :
      (ts : List T) (s : Socket)
      → length s.outbound + length (encode_all l ts) ≤ buffer_size
      → send_messages s ts ≡ ok (record s { outbound = s.outbound ++ encode_all l ts })
  unfolding send_messages tcp_send
  send_messages-encode_all [] s room =
      ap (λ o. ok (record s { outbound = o })) (sym (append-nil s.outbound))
  send_messages-encode_all (t ∷ ts) s room =
      let h = p.head t in
      let b = p.body t in
      let rest = encode_all l ts in
      let sizes : length (l.encode t ++ rest) ≡ length h + length b + length rest =
        length-append (l.encode t) rest
        ∙ ap (λ n. n + length rest) (ap length (p.encode_parts t) ∙ length-append h b) in
      let whole : ((s.outbound ++ h) ++ b) ++ rest ≡ s.outbound ++ (l.encode t ++ rest) =
        rw
          (
            p.encode_parts t,
            append_assoc (s.outbound ++ h) b rest,
            append_assoc s.outbound h (b ++ rest),
            append_assoc h b rest,
          )
          refl in
      rw
        (
          ltb-ge buffer_size (length s.outbound + length h) (omega (arith, sizes, room)),
          ltb-ge buffer_size (length (s.outbound ++ h) + length b)
              (omega (arith, sizes, room, length-append s.outbound h)),
        )
        (send_messages-encode_all ts (record s { outbound = (s.outbound ++ h) ++ b })
            (omega (
              arith,
              room,
              ap length whole,
              length-append ((s.outbound ++ h) ++ b) rest,
              length-append s.outbound (l.encode t ++ rest),
            ))
          ∙ ap (λ o. ok (record s { outbound = o })) whole)
