-- ===== src/Exchange/OrderServer/Bytes.antt =====
-- The order server and its sockets: `recvCallback` (exchange/order_server/order_server.h) on the bytes
-- of a connection.
use nano_trade.Base.{
  ℕ, ◌+◌, ◌≤◌, ◌<◌, ◌≡◌, refl, sym, ◌∙◌, ap, arith, fun_ext, update, update_self, append-nil,
  append_assoc, List, [], ◌∷◌, ◌++◌,
}
use nano_trade.Base.Lists.{length, length-append, All}
use nano_trade.Base.Outcome.{Outcome, ok, and_then}
use nano_trade.Common.Socket.{Socket, buffer_size}
use nano_trade.Common.Socket.Framing.{
  Layout, Parts, on_bytes, steps, encode_all, send_messages, send_messages-encode_all,
}
use nano_trade.Common.Socket.Delivery.{reads, reads-Waits}
use nano_trade.Exchange.Messages.{OmClientRequest, OmClientResponse}
use nano_trade.Exchange.OrderServer.Responses.{carried}
use nano_trade.Exchange.OrderServer.{OrderServer, receive, recv_callback}

-- `recvCallback` for the socket with the number `socket`.
unfoldable pub on_read :
    Layout OmClientRequest
    → (socket : ℕ) → Socket
    → (rx_time : ℕ) → OrderServer
    → Outcome (Socket × OrderServer)
on_read l socket s rx_time server = on_bytes l (λ t m. receive t socket rx_time m) s server

steps-recv_callback :
    (l : Layout OmClientRequest) (socket rx_time : ℕ) (ms : List OmClientRequest) (s : OrderServer)
    → steps l (λ t m. receive t socket rx_time m) s ms ≡ recv_callback s socket rx_time ms
unfolding recv_callback
steps-recv_callback l socket rx_time [] s = refl
steps-recv_callback l socket rx_time (m ∷ ms) s =
    ap (and_then (receive s socket rx_time m))
      (fun_ext λ t. steps-recv_callback l socket rx_time ms t)

-- Requests whose bytes come in pieces, all with one time stamp, are handled as if they had come whole.
pub reads-recv_callback :
    (l : Layout OmClientRequest) (ms : List OmClientRequest) (arrivals pending : List ℕ)
    (s : Socket) (socket rx_time : ℕ) (server after : OrderServer)
    → recv_callback server socket rx_time ms ≡ ok after
    → l.size ≤ buffer_size
    → length s.inbound < l.size
    → s.inbound ++ pending ≡ encode_all l ms
    → All l.IsValue ms
    → All (λ n. 1 ≤ n) arrivals
    → length pending ≤ length arrivals
    → reads (on_read l socket) rx_time arrivals pending s server
      ≡ ok (record s { inbound = [] }, after, [])
unfolding on_read
reads-recv_callback l ms arrivals pending s socket rx_time server after handled room short stream
      values some enough =
    reads-Waits l (λ t m. receive t socket rx_time m) (on_read l socket) rx_time (λ t v. refl)
      arrivals pending s server after
      (record {
        todo = ms;
        stream = stream;
        values = values;
        short = short;
        leads = steps-recv_callback l socket rx_time ms server ∙ handled;
      })
      some enough room

-- The two calls of `send` in `run`, for the messages that go out: each is written to the socket that its
-- client is tied to.
unfoldable pub write_responses :
    {l : Layout OmClientResponse}
    → Parts l
    → (ℕ → Socket)
    → List (ℕ × OmClientResponse)
    → Outcome (ℕ → Socket)
write_responses p sockets [] = ok sockets
write_responses p sockets ((k, m) ∷ ms) =
    and_then (send_messages p (sockets k) (m ∷ [])) λ s. write_responses p (update sockets k s) ms

update_same : {A : Type 0} (f : ℕ → A) (i : ℕ) (v : A) → f i ≡ v → update f i v ≡ f
update_same f i v e = fun_ext λ k. ground (arith, e)

update_again : {A : Type 0} (f : ℕ → A) (i : ℕ) (v w : A) → update (update f i v) i w ≡ update f i w
update_again f i v w = fun_ext λ k. ground arith

-- Messages that all go to one socket, with room for them in its buffer, are in it in their order, and no
-- other socket has changed.
pub write_responses-encode_all :
    {l : Layout OmClientResponse} (p : Parts l) (socket : ℕ) (ms : List (ℕ × OmClientResponse))
    (sockets : ℕ → Socket)
    → All (λ m. m.0 ≡ socket) ms
    → length (sockets socket).outbound + length (encode_all l (carried ms)) ≤ buffer_size
    → write_responses p sockets ms
      ≡ ok (
          update sockets socket (record (sockets socket) {
            outbound = (sockets socket).outbound ++ encode_all l (carried ms);
          }))
unfolding write_responses
write_responses-encode_all p socket [] sockets own room = ap ok (
    sym (
      update_same sockets socket _ (
        ap (λ o. record (sockets socket) { outbound = o })
          (sym (append-nil (sockets socket).outbound)))))
write_responses-encode_all {l} p socket ((k, m) ∷ ms) sockets own room =
    let out = (sockets socket).outbound in
    let rest = encode_all l (carried ms) in
    let sizes : length (l.encode m ++ rest) ≡ length (l.encode m) + length rest =
      length-append (l.encode m) rest in
    let one : encode_all l (m ∷ []) ≡ l.encode m = append-nil (l.encode m) in
    let s = record (sockets socket) { outbound = out ++ encode_all l (m ∷ []) } in
    rw
      (
        own.0,
        send_messages-encode_all p (m ∷ []) (sockets socket)
            (omega (arith, room, sizes, ap length one)),
      )
      (write_responses-encode_all p socket ms (update sockets socket s) own.1 (
          omega (
            arith,
            room,
            sizes,
            ap length one,
            length-append out (l.encode m ++ []),
            ap (λ t. length (Socket.outbound t)) (update_self sockets socket s),
          ))
        ∙ ap
            (λ t. ok (
              update (update sockets socket s) socket
                (record t { outbound = Socket.outbound t ++ rest })))
            (update_self sockets socket s)
        ∙ ap ok (
            update_again sockets socket s
              (record (sockets socket) { outbound = (out ++ (l.encode m ++ [])) ++ rest }))
        ∙ ap (λ o. ok (update sockets socket (record (sockets socket) { outbound = o })))
            (append_assoc out (l.encode m ++ []) rest ∙ ap (λ b. out ++ (b ++ rest)) one))
