-- ===== src/Exchange/OrderServer/Wire.antt =====
-- The way of the responses as bytes: from the order server through its socket and the kernel to the
-- gateway.
use nano_trade.Base.{
  ℕ, ◌+◌, ◌*◌, ◌^◌, ◌≤◌, ◌<◌, ◌≡◌, ◌≢◌, refl, sym, ◌∙◌, ap, arith, some, subst, update, update_self,
  update-ne, List, [], ◌∷◌, ◌++◌,
}
use nano_trade.Base.Lists.{length, length-append, All}
use nano_trade.Base.Slices.{take, take-enough}
use nano_trade.Base.Outcome.{ok}
use nano_trade.Common.Types.{me_max_num_clients}
use nano_trade.Common.LfQueue.{pushes}
use nano_trade.Common.Socket.{Socket, buffer_size, flush}
use nano_trade.Common.Socket.Framing.{Layout, Parts, encode_all}
use nano_trade.Common.Socket.Delivery.{reads}
use nano_trade.Exchange.Messages.{MeClientResponse, OmClientResponse}
use nano_trade.Exchange.OrderServer.{OrderServer, send_responses}
use nano_trade.Exchange.OrderServer.Responses.{carried, numbered, send_responses-recv_callback}
use nano_trade.Exchange.OrderServer.Bytes.{write_responses, write_responses-encode_all}
use nano_trade.Trading.OrderGateway.{OrderGateway, recv_callback}
use nano_trade.Trading.OrderGateway.Bytes.{on_read, reads-recv_callback}

length-encode_all :
    {T : Type 0} (l : Layout T) (ts : List T) → length (encode_all l ts) ≡ length ts * l.size
length-encode_all l [] = omega arith
length-encode_all l (t ∷ ts) =
    length-append (l.encode t) (encode_all l ts)
    ∙ grind (arith, length-encode_all l ts, l.length-encode t)

length-numbered : (n : ℕ) (rs : List MeClientResponse) → length (numbered n rs) ≡ length rs
length-numbered n [] = refl
length-numbered n (r ∷ rs) = omega (arith, length-numbered (n + 1) rs)

-- The response fits into the fields of the struct, whatever its number.
abbrev pub IsSendable : Layout OmClientResponse → MeClientResponse → Type 0
IsSendable l r = (n : ℕ) → n < 2 ^ 64 → l.IsValue (record { seq_num = n; me_client_response = r })

numbered-values :
    (l : Layout OmClientResponse) (n : ℕ) (rs : List MeClientResponse)
    → All (IsSendable l) rs
    → n + length rs < 2 ^ 64
    → All l.IsValue (numbered n rs)
numbered-values l n [] v h = tt
numbered-values l n (r ∷ rs) v h =
    (v.0 n (omega arith), numbered-values l (n + 1) rs v.1 (omega arith))

-- What arrives of a run of responses: the server has written them to the client's socket and to no
-- other, all of them are in the gateway's queue, and both ends agree.
pub record Arrives (l : Layout OmClientResponse) (p : Parts l) (s : OrderServer) (g : OrderGateway)
    (rs : List MeClientResponse) (sockets : ℕ → Socket) (socket : ℕ) (inb : Socket)
    (accepted rx_time : ℕ) (arrivals : List ℕ) : Type 0 where
  pub sent : List (ℕ × OmClientResponse)
  pub server : OrderServer
  pub written : ℕ → Socket
  pub gateway : OrderGateway
  pub serves : send_responses s rs ≡ ok (sent, server)
  pub writes : write_responses p sockets sent ≡ ok written
  pub others : (k : ℕ) → k ≢ socket → written k ≡ sockets k
  pub reads_all :
      reads (on_read l) rx_time arrivals (flush accepted (written socket)).0 inb g
      ≡ ok (inb, gateway, [])
  pub queued : gateway.incoming_responses ≡ pushes g.incoming_responses rs
  pub agrees : gateway.next_exp_seq_num ≡ server.cid_next_outgoing_seq_num g.client_id

-- An order server whose next number for a client, who is tied to a socket, is the one that the
-- gateway expects, below 2 ^ 64 throughout, and a run of responses for that client whose numbers
-- fit into the fields of the struct; the outgoing buffer of that socket and the incoming one of the
-- gateway are empty, the bytes of the responses fit in one and are all taken by the kernel, which
-- hands them over in any pieces of at least one byte, in as many reads as there are bytes at least:
-- the server writes the responses to the socket that the client is tied to and leaves the buffers
-- of all others alone, the gateway reads what that socket sends to the last byte and pushes each
-- response, in order, to its queue, and the two agree on the next number.
pub send_responses-Arrives :
    (l : Layout OmClientResponse) (p : Parts l) (rs : List MeClientResponse) (s : OrderServer)
    (g : OrderGateway) (sockets : ℕ → Socket) (socket : ℕ) (inb : Socket) (accepted rx_time : ℕ)
    (arrivals : List ℕ)
    → g.client_id < me_max_num_clients
    → All (λ r. MeClientResponse.client_id r ≡ g.client_id) rs
    → All (IsSendable l) rs
    → s.cid_tcp_socket g.client_id ≡ some socket
    → s.cid_next_outgoing_seq_num g.client_id ≡ g.next_exp_seq_num
    → g.next_exp_seq_num + length rs < 2 ^ 64
    → (sockets socket).outbound ≡ []
    → inb.inbound ≡ []
    → l.size ≤ buffer_size
    → length rs * l.size ≤ buffer_size
    → length rs * l.size ≤ accepted
    → All (λ n. 1 ≤ n) arrivals
    → length rs * l.size ≤ length arrivals
    → Arrives l p s g rs sockets socket inb accepted rx_time arrivals
unfolding flush
send_responses-Arrives l p rs s g sockets socket inb accepted rx_time arrivals c own fit tied agree
      n out_empty in_empty one room taken pos enough =
    let (ms, t, ran, to_socket, numbers, queued, agrees) =
      send_responses-recv_callback rs s g socket c own tied agree n in
    let bytes = encode_all l (carried ms) in
    let size : length bytes ≡ length rs * l.size =
      length-encode_all l (carried ms)
      ∙ ap (λ k. k * l.size) (ap length numbers ∙ length-numbered g.next_exp_seq_num rs) in
    let out = sockets socket in
    let full = record out { outbound = out.outbound ++ bytes } in
    let whole : take accepted (update sockets socket full socket).outbound ≡ bytes =
      ap (λ u. take accepted (Socket.outbound u)) (update_self sockets socket full)
      ∙ ap (λ o. take accepted (o ++ bytes)) out_empty
      ∙ take-enough accepted bytes (omega (arith, size)) in
    record {
      sent = ms;
      server = t;
      written = update sockets socket full;
      gateway = recv_callback g (carried ms);
      serves = ran;
      writes =
          write_responses-encode_all p socket ms sockets to_socket
            (omega (arith, size, ap length out_empty));
      others = update-ne sockets socket full;
      reads_all =
          ap (λ o. reads (on_read l) rx_time arrivals o inb g) whole
          ∙ reads-recv_callback l (carried ms) arrivals bytes inb g rx_time one
              (omega (arith, ap length in_empty, l.size_pos)) (ap (λ b. b ++ bytes) in_empty)
              (subst (All l.IsValue) (sym numbers) (numbered-values l g.next_exp_seq_num rs fit n))
              pos (omega (arith, size))
          ∙ ap (λ b. ok (record inb { inbound = b }, recv_callback g (carried ms), []))
              (sym in_empty);
      queued = queued;
      agrees = agrees;
    }
