-- ===== src/Trading/OrderGateway.antt =====
-- trading/order_gw/order_gateway.h and order_gateway.cpp: the client's end of its TCP connection.
pub mod Bytes
pub mod Packed
use nano_trade.Base.{ℕ, ◌+◌, not, ◌==◌, if◌then◌else◌, List, [], ◌∷◌}
use nano_trade.Common.Types.{to_u64}
use nano_trade.Common.LfQueue.{LfQueue, push}
use nano_trade.Exchange.Messages.{
  MeClientRequest, OmClientRequest, MeClientResponse, OmClientResponse,
}

pub record OrderGateway : Type 0 where
  pub client_id : ℕ
  pub next_outgoing_seq_num : ℕ
  pub next_exp_seq_num : ℕ
  pub incoming_responses : LfQueue MeClientResponse

unfoldable pub init : ℕ → LfQueue MeClientResponse → OrderGateway
init client_id responses = record {
  client_id = client_id;
  next_outgoing_seq_num = 1;
  next_exp_seq_num = 1;
  incoming_responses = responses;
}

-- The loop of `run` over the requests in its queue: what goes out on the socket.
unfoldable pub send_requests :
    OrderGateway → List MeClientRequest → List OmClientRequest × OrderGateway
send_requests g [] = ([], g)
send_requests g (r ∷ rs) =
    let (ms, h) =
      send_requests (record g { next_outgoing_seq_num = to_u64 (g.next_outgoing_seq_num + 1) })
        rs in
    (record { seq_num = g.next_outgoing_seq_num; me_client_request = r } ∷ ms, h)

-- The body of the loop of `recvCallback`: a response for another client, or out of sequence, is
-- dropped.
unfoldable pub receive : OrderGateway → OmClientResponse → OrderGateway
receive g response =
    if not (response.me_client_response.client_id == g.client_id)
    then g
    else if not (response.seq_num == g.next_exp_seq_num)
    then g
    else record g {
      next_exp_seq_num = to_u64 (g.next_exp_seq_num + 1);
      incoming_responses = push g.incoming_responses response.me_client_response;
    }

unfoldable pub recv_callback : OrderGateway → List OmClientResponse → OrderGateway
recv_callback g [] = g
recv_callback g (r ∷ rs) = recv_callback (receive g r) rs
