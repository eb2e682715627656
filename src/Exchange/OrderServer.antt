-- ===== src/Exchange/OrderServer.antt =====
-- exchange/order_server/order_server.h and order_server.cpp: the exchange's end of the TCP
-- connections. A socket is a number; the complete requests at the front of a socket's receive buffer
-- are a list.
pub mod Link
pub mod Responses
pub mod Bytes
pub mod Wire
mod Tests
use nano_trade.Base.{
  ℕ, ◌+◌, Bool, not, ◌==◌, ltb, same_ptr, if◌then◌else◌, update, Option, none, some, List, [], ◌∷◌,
  ◌++◌,
}
use nano_trade.Base.Outcome.{Outcome, ok, fault, fatal, out_of_range, and_then}
use nano_trade.Common.Types.{me_max_num_clients, to_u64}
use nano_trade.Common.LfQueue.{LfQueue}
use nano_trade.Exchange.Messages.{
  MeClientRequest, OmClientRequest, MeClientResponse, OmClientResponse,
}
use nano_trade.Exchange.Sequencer.{FifoSequencer, Sort, add_client_request, sequence_and_publish}

pub record OrderServer : Type 0 where
  pub cid_next_outgoing_seq_num : ℕ → ℕ
  pub cid_next_exp_seq_num : ℕ → ℕ
  pub cid_tcp_socket : ℕ → Option ℕ
  pub fifo_sequencer : FifoSequencer

unfoldable pub init : LfQueue MeClientRequest → OrderServer
init client_requests = record {
  cid_next_outgoing_seq_num = λ _. 1;
  cid_next_exp_seq_num = λ _. 1;
  cid_tcp_socket = λ _. none;
  fifo_sequencer = record { incoming_requests = client_requests; pending = [] };
}

-- The first message of a client ties it to its socket.
unfoldable pub tie_socket : OrderServer → (client_id socket : ℕ) → OrderServer
tie_socket s client_id socket =
    if same_ptr (s.cid_tcp_socket client_id) none
    then record s { cid_tcp_socket = update s.cid_tcp_socket client_id (some socket) }
    else s

-- The body of the loop of `recvCallback`; both `continue`s leave the server as it is. The arrays are
-- indexed with no check, which is undefined for a client number that is too large.
unfoldable pub receive : OrderServer → (socket rx_time : ℕ) → OmClientRequest → Outcome OrderServer
receive s socket rx_time request =
    let client_id = request.me_client_request.client_id in
    let t = tie_socket s client_id socket in
    let next_exp_seq_num = t.cid_next_exp_seq_num client_id in
    if not (ltb client_id me_max_num_clients)
    then fault out_of_range
    else if not (same_ptr (t.cid_tcp_socket client_id) (some socket))
    then ok t
    else if not (request.seq_num == next_exp_seq_num)
    then ok t
    else and_then (add_client_request t.fifo_sequencer rx_time request.me_client_request) λ f.
      ok (record t {
        cid_next_exp_seq_num =
            update t.cid_next_exp_seq_num client_id (to_u64 (next_exp_seq_num + 1));
        fifo_sequencer = f;
      })

unfoldable pub recv_callback :
    OrderServer → (socket rx_time : ℕ) → List OmClientRequest → Outcome OrderServer
recv_callback s socket rx_time [] = ok s
recv_callback s socket rx_time (r ∷ rs) =
    and_then (receive s socket rx_time r) λ t. recv_callback t socket rx_time rs

unfoldable pub recv_finished_callback : Sort → OrderServer → OrderServer
recv_finished_callback std s = record s {
  fifo_sequencer = sequence_and_publish std s.fifo_sequencer;
}

-- One round of the loop of `run` over the outgoing responses: the socket and the message sent on it.
unfoldable pub send_response :
    OrderServer → MeClientResponse → Outcome ((ℕ × OmClientResponse) × OrderServer)
send_response s response =
    let seq_num = s.cid_next_outgoing_seq_num response.client_id in
    if not (ltb response.client_id me_max_num_clients)
    then fault out_of_range
    else elim (s.cid_tcp_socket response.client_id) [
      | none ↦ fault fatal
      | some socket ↦ ok (
        (socket, record { seq_num = seq_num; me_client_response = response }),
        record s {
          cid_next_outgoing_seq_num =
              update s.cid_next_outgoing_seq_num response.client_id (to_u64 (seq_num + 1));
        },
      )
    ]

unfoldable pub send_responses :
    OrderServer → List MeClientResponse → Outcome (List (ℕ × OmClientResponse) × OrderServer)
send_responses s [] = ok ([], s)
send_responses s (r ∷ rs) =
    and_then (send_response s r) λ (m, t). and_then (send_responses t rs) λ (ms, u). ok (m ∷ ms, u)
