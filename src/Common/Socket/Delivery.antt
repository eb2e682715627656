-- ===== src/Common/Socket/Delivery.antt =====
-- Whole messages come out of `recvCallback` in whatever pieces the kernel hands their bytes over.
use nano_trade.Base.{
  ℕ, zero, suc, ◌+◌, ◌≤◌, ◌<◌, ◌≡◌, refl, sym, ◌∙◌, ap, arith, true, false, leb, ==-ne, leb-gt,
  Bool-cases, inl, inr, List, [], ◌∷◌, ◌++◌, append_assoc, append-nil, subst,
}
use nano_trade.Base.Lists.{length, length-append, All}
use nano_trade.Base.Slices.{
  take, drop, length-drop, length-take, length-eq-zero, append-take-drop, take_nil,
}
use nano_trade.Base.Outcome.{Outcome, ok, and_then, and_then-eq-ok}
use nano_trade.Common.Socket.{Socket, buffer_size, read_size, Callback, receive}
use nano_trade.Common.Socket.Framing.{
  Layout, take_messages, on_bytes, steps, encode_all, front, behind, Waits,
}

leb-le : (a b : ℕ) → a ≤ b → leb a b ≡ true
leb-le a b h = ground arith

leb-lt : (a b : ℕ) → leb a b ≡ false → b < a
leb-lt a b h = ground arith

leb-true : (a b : ℕ) → leb a b ≡ true → a ≤ b
leb-true a b h = ground arith

-- Reads that hand over as many bytes as `arrivals` say.
unfoldable pub reads :
    {S : Type 0}
    → Callback S
    → (rx_time : ℕ) → (arrivals : List ℕ) → (pending : List ℕ) → Socket
    → S
    → Outcome (Socket × S × List ℕ)
reads callback rx_time [] pending s x = ok (s, x, pending)
reads callback rx_time (n ∷ ns) pending s x =
    and_then (receive callback n rx_time pending s x)
      λ (t, y, left, was_read). reads callback rx_time ns left t y

module _ {T S : Type 0} (l : Layout T) (step : S → T → Outcome S) where
  take_messages-Waits :
      (ms : List T) (fuel : ℕ) (bytes pending : List ℕ) (x y : S)
      → bytes ++ pending ≡ encode_all l ms
      → All l.IsValue ms
      → steps l step x ms ≡ ok y
      → length bytes < fuel
      → (rest : List ℕ) × (z : S) × (take_messages l step fuel bytes x ≡ ok (rest, z))
        × Waits l step pending y rest z
  unfolding take_messages
  take_messages-Waits ms zero bytes pending x y e v leads h = absurd (omega arith)
  take_messages-Waits [] (suc fuel) bytes pending x y e v leads h =
      let n : length bytes + length pending ≡ 0 = sym (length-append bytes pending) ∙ ap length e in
      (
        bytes,
        x,
        rw (leb-gt l.size (length bytes) (omega (arith, n, l.size_pos))) refl,
        record {
          todo = [];
          stream = e;
          values = v;
          short = omega (arith, n, l.size_pos);
          leads = leads;
        },
      )
  take_messages-Waits (m ∷ ms) (suc fuel) bytes pending x y e v leads h =
      elim (Bool-cases (leb l.size (length bytes))) [
        | inr short ↦ (
          bytes,
          x,
          rw short refl,
          record { todo = m ∷ ms; stream = e; values = v; short = leb-lt _ _ short; leads = leads },
        )
        | inl whole ↦
            let fits = leb-true _ _ whole in
            let (z, ran, leads') = and_then-eq-ok (step x m) _ leads in
            let (rest, w, runs, waits) =
              take_messages-Waits ms fuel (drop l.size bytes) pending z y
                (behind l m ms bytes pending e fits) v.1 leads'
                (omega (arith, length-drop l.size bytes, l.size_pos)) in
            (rest, w, rw (whole, front l m ms bytes pending e fits v.0, ran) runs, waits)
      ]

  on_bytes-Waits :
      (ms : List T) (s : Socket) (pending : List ℕ) (x y : S)
      → s.inbound ++ pending ≡ encode_all l ms
      → All l.IsValue ms
      → steps l step x ms ≡ ok y
      → (rest : List ℕ) × (z : S) × (on_bytes l step s x ≡ ok (record s { inbound = rest }, z))
        × Waits l step pending y rest z
  unfolding on_bytes
  on_bytes-Waits ms s pending x y e v leads = elim (Bool-cases (leb l.size (length s.inbound))) [
    | inr short ↦ (
      s.inbound,
      x,
      rw short refl,
      record { todo = ms; stream = e; values = v; short = leb-lt _ _ short; leads = leads },
    )
    | inl whole ↦
        let (rest, z, runs, waits) =
          take_messages-Waits ms (length s.inbound + 1) s.inbound pending x y e v leads
            (omega arith) in
        (rest, z, rw (whole, runs) refl, waits)
  ]

  receive-nothing :
      (callback : Callback S) (n rx_time : ℕ) (s : Socket) (x : S)
      → receive callback n rx_time [] s x ≡ ok (s, x, [], false)
  unfolding receive
  receive-nothing callback n rx_time s x = rw (take_nil (read_size s n)) refl

  -- A buffer that holds less than a message, with nothing to come, is empty.
  Waits-done : (bytes : List ℕ) (x y : S) → Waits l step [] y bytes x → (bytes ≡ []) × (x ≡ y)
  Waits-done bytes x y w = done w.todo w.stream w.leads
    where
      done :
          (todo : List T)
          → bytes ++ [] ≡ encode_all l todo
          → steps l step x todo ≡ ok y
          → (bytes ≡ []) × (x ≡ y)
      done [] e leads = (sym (append-nil bytes) ∙ e, cc)
      done (m ∷ ms) e leads = absurd (
          omega (
            arith,
            w.short,
            ap length (append-nil bytes),
            ap length e,
            length-append (l.encode m) (encode_all l ms),
            l.length-encode m,
          ))

  -- A callback that is the loop over whole messages, at the time of the reads.
  module _ (callback : Callback S) (rx_time : ℕ)
      (same : (t : Socket) (x : S) → callback t rx_time x ≡ on_bytes l step t x) where
    -- One read with something pending takes at least one byte of it.
    receive-Waits :
        (n : ℕ) (pending : List ℕ) (s : Socket) (x y : S)
        → Waits l step pending y s.inbound x
        → 1 ≤ n
        → 1 ≤ length pending
        → l.size ≤ buffer_size
        → (rest left : List ℕ) × (z : S) × (receive callback n rx_time pending s x
            ≡ ok (record s { inbound = rest }, z, left, true))
          × Waits l step left y rest z
          × (length left < length pending)
    unfolding receive
    receive-Waits n pending s x y w some_n some_p room =
        let k = read_size s n in
        let k_pos : 1 ≤ k = omega (arith, w.short) in
        let (rest, z, runs, waits) =
          on_bytes-Waits w.todo (record s { inbound = s.inbound ++ take k pending })
            (drop k pending) x y
            (append_assoc s.inbound (take k pending) (drop k pending)
              ∙ ap (λ p. s.inbound ++ p) (append-take-drop k pending)
              ∙ w.stream)
            w.values w.leads in
        (
          rest,
          drop k pending,
          z,
          rw
              (
                ==-ne (length (take k pending)) 0
                    (λ e. omega (arith, e, length-take k pending, k_pos)),
                same (record s { inbound = s.inbound ++ take k pending }) x ∙ runs,
              )
              refl,
          waits,
          omega (arith, length-drop k pending, k_pos),
        )

    pub reads-Waits :
        (arrivals pending : List ℕ) (s : Socket) (x y : S)
        → Waits l step pending y s.inbound x
        → All (λ n. 1 ≤ n) arrivals
        → length pending ≤ length arrivals
        → l.size ≤ buffer_size
        → reads callback rx_time arrivals pending s x ≡ ok (record s { inbound = [] }, y, [])
    unfolding reads
    reads-Waits [] pending s x y w ns enough room =
        let none_left = length-eq-zero pending (omega arith) in
        let (empty, same) =
          Waits-done s.inbound x y (subst (λ p. Waits l step p y s.inbound x) none_left w) in
        ap (λ left. ok (s, x, left)) none_left
        ∙ ap (λ z. ok (s, z, [])) same
        ∙ ap (λ bytes. ok (record s { inbound = bytes }, y, [])) empty
    reads-Waits (n ∷ ns) [] s x y w pos enough room =
        rw receive-nothing (reads-Waits ns [] s x y w pos.1 (omega arith) room)
    reads-Waits (n ∷ ns) (p ∷ ps) s x y w pos enough room =
        let (rest, left, z, runs, waits, fewer) =
          receive-Waits n (p ∷ ps) s x y w pos.0 (omega arith) room in
        rw runs (
          reads-Waits ns left (record s { inbound = rest }) z y waits pos.1 (omega (arith, fewer))
            room)
