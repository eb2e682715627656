-- ===== src/Exchange/OrderServer/Responses.antt =====
-- The sequence numbers of a connection, from the exchange to the client.
use nano_trade.Base.{
  ℕ, ◌+◌, ◌^◌, ◌<◌, ◌≡◌, refl, sym, ◌∙◌, ap, arith, ==-self, ltb-lt, update, some, List, [], ◌∷◌,
  map,
}
use nano_trade.Base.Lists.{length, All}
use nano_trade.Base.Outcome.{ok}
use nano_trade.Common.Types.{me_max_num_clients, to_u64}
use nano_trade.Common.LfQueue.{push, pushes}
use nano_trade.Exchange.Messages.{MeClientResponse, OmClientResponse}
use nano_trade.Exchange.OrderServer.{OrderServer, send_response, send_responses}
use nano_trade.Trading.OrderGateway.{OrderGateway, receive, recv_callback}

-- What a socket carries of what the server sends.
abbrev pub carried : List (ℕ × OmClientResponse) → List OmClientResponse
carried = map λ m. m.1

-- The messages of a run of responses with their numbers.
abbrev pub numbered : ℕ → List MeClientResponse → List OmClientResponse
numbered n [] = []
numbered n (r ∷ rs) = record { seq_num = n; me_client_response = r } ∷ numbered (n + 1) rs

send_response-tied :
    (s : OrderServer) (r : MeClientResponse) (socket : ℕ)
    → r.client_id < me_max_num_clients
    → s.cid_tcp_socket r.client_id ≡ some socket
    → s.cid_next_outgoing_seq_num r.client_id + 1 < 2 ^ 64
    → (t : OrderServer) × (send_response s r
        ≡ ok (
          (
            socket,
            record { seq_num = s.cid_next_outgoing_seq_num r.client_id; me_client_response = r },
          ),
          t,
        ))
      × (t.cid_tcp_socket ≡ s.cid_tcp_socket)
      × (t.cid_next_outgoing_seq_num r.client_id ≡ s.cid_next_outgoing_seq_num r.client_id + 1)
unfolding send_response
send_response-tied s r socket h tied n = (
  record s {
    cid_next_outgoing_seq_num =
        update s.cid_next_outgoing_seq_num r.client_id
          (to_u64 (s.cid_next_outgoing_seq_num r.client_id + 1));
  },
  rw (ltb-lt r.client_id me_max_num_clients h, tied) refl,
  refl,
  rw (==-self r.client_id) (omega arith),
)

-- A gateway takes its own response with the expected number.
receive-expected :
    (g : OrderGateway) (r : MeClientResponse)
    → r.client_id ≡ g.client_id
    → receive g (record { seq_num = g.next_exp_seq_num; me_client_response = r }) ≡ record g {
      next_exp_seq_num = to_u64 (g.next_exp_seq_num + 1);
      incoming_responses = push g.incoming_responses r;
    }
unfolding receive
receive-expected g r mine = rw (mine, ==-self, ==-self) refl

-- A server whose next number for a client with a socket is the one that the gateway expects, below
-- 2 ^ 64 throughout: all responses that the server sends to the client go to its socket, the
-- gateway pushes each of them, in order, to its queue, and the two agree afterwards.
pub send_responses-recv_callback :
    (rs : List MeClientResponse) (s : OrderServer) (g : OrderGateway) (socket : ℕ)
    → g.client_id < me_max_num_clients
    → All (λ r. MeClientResponse.client_id r ≡ g.client_id) rs
    → s.cid_tcp_socket g.client_id ≡ some socket
    → s.cid_next_outgoing_seq_num g.client_id ≡ g.next_exp_seq_num
    → g.next_exp_seq_num + length rs < 2 ^ 64
    → (ms : List (ℕ × OmClientResponse)) × (t : OrderServer) × (send_responses s rs ≡ ok (ms, t))
      × All (λ m. m.0 ≡ socket) ms
      × (carried ms ≡ numbered g.next_exp_seq_num rs)
      × ((recv_callback g (carried ms)).incoming_responses ≡ pushes g.incoming_responses rs)
      × ((recv_callback g (carried ms)).next_exp_seq_num ≡ t.cid_next_outgoing_seq_num g.client_id)
unfolding send_responses recv_callback pushes
send_responses-recv_callback [] s g socket c own tied e n = ([], s, refl, tt, refl, refl, sym e)
send_responses-recv_callback (r ∷ rs) s g socket c own tied e n =
    let mine : r.client_id ≡ g.client_id = own.0 in
    let (t, ran, tied', next) =
      send_response-tied s r socket (rw mine c) (rw mine tied)
        (omega (arith, e, ap s.cid_next_outgoing_seq_num mine)) in
    let h = record g {
      next_exp_seq_num = to_u64 (g.next_exp_seq_num + 1);
      incoming_responses = push g.incoming_responses r;
    } in
    let expected : s.cid_next_outgoing_seq_num r.client_id ≡ g.next_exp_seq_num =
      ap s.cid_next_outgoing_seq_num mine ∙ e in
    let (ms, u, ran', sockets, numbers, queued, agree) =
      send_responses-recv_callback rs t h socket c own.1 (ap (λ f. f g.client_id) tied' ∙ tied)
        (omega (arith, next, expected, ap t.cid_next_outgoing_seq_num mine)) (omega arith) in
    let later : to_u64 (g.next_exp_seq_num + 1) ≡ g.next_exp_seq_num + 1 = omega arith in
    let taken : receive g
          (record { seq_num = s.cid_next_outgoing_seq_num r.client_id; me_client_response = r })
        ≡ h =
      rw expected (receive-expected g r mine) in
    (
      (socket, record { seq_num = s.cid_next_outgoing_seq_num r.client_id; me_client_response = r })
          ∷ ms,
      u,
      rw (ran, ran') refl,
      (refl, sockets),
      ap (λ k. record { seq_num = k; me_client_response = r } ∷ carried ms) expected
          ∙ ap (◌∷◌ (record { seq_num = g.next_exp_seq_num; me_client_response = r }))
              (numbers ∙ ap (λ k. numbered k rs) later),
      ap (λ k. (recv_callback k (carried ms)).incoming_responses) taken ∙ queued,
      ap (λ k. (recv_callback k (carried ms)).next_exp_seq_num) taken ∙ agree,
    )
