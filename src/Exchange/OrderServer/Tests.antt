-- ===== src/Exchange/OrderServer/Tests.antt =====
-- The connection's theorems at concrete messages.
use nano_trade.Base.{
  ℕ, zero, suc, ◌<◌, ◌≤◌, ◌≡◌, refl, arith, ◌==◌, if◌then◌else◌, none, some, List, [], ◌∷◌, ◌++◌,
  inr,
}
use nano_trade.Base.Int.{pos}
use nano_trade.Base.Lists.{All, length}
use nano_trade.Base.Outcome.{ok}
use nano_trade.Common.Types.{Side}
use nano_trade.Common.LfQueue.{LfQueue}
use nano_trade.Exchange.Messages.{
  MeClientRequest, ClientRequestType, MeClientResponse, ClientResponseType,
}
use nano_trade.Exchange.OrderServer.{OrderServer, recv_callback}
use nano_trade.Exchange.OrderServer.Link.{IsFor, stamped, send_requests-recv_callback}
use nano_trade.Common.Socket.{init}
use nano_trade.Exchange.OrderServer.Wire.{Arrives, IsSendable, send_responses-Arrives}
use nano_trade.Trading.OrderGateway.Packed.{layout, parts}
use nano_trade.Trading.OrderGateway.{OrderGateway, send_requests}

abbrev buy : ℕ → MeClientRequest
buy id = record {
  type = ClientRequestType.new;
  client_id = 3;
  ticker_id = 0;
  order_id = id;
  side = Side.buy;
  price = pos 100;
  qty = 10;
}

abbrev accepted : ℕ → MeClientResponse
accepted id = record {
  type = ClientResponseType.accepted;
  client_id = 3;
  ticker_id = 0;
  client_order_id = id;
  market_order_id = id;
  side = Side.buy;
  price = pos 100;
  exec_qty = 0;
  leaves_qty = 10;
}

abbrev requests_queue : LfQueue MeClientRequest
requests_queue = record {
  store = λ _. buy 0;
  capacity = 8;
  next_write_index = 0;
  next_read_index = 0;
  num_elements = 0;
}

abbrev responses_queue : LfQueue MeClientResponse
responses_queue = record {
  store = λ _. accepted 0;
  capacity = 8;
  next_write_index = 0;
  next_read_index = 0;
  num_elements = 0;
}

-- Client 3 speaks on socket 12; everybody else is unknown.
abbrev server : OrderServer
server = record {
  cid_next_outgoing_seq_num = λ _. 5;
  cid_next_exp_seq_num = λ _. 7;
  cid_tcp_socket = λ c. if c == 3 then some 12 else none;
  fifo_sequencer = record { incoming_requests = requests_queue; pending = [] };
}

abbrev gateway : OrderGateway
gateway = record {
  client_id = 3;
  next_outgoing_seq_num = 7;
  next_exp_seq_num = 5;
  incoming_responses = responses_queue;
}

send_requests-recv_callback_example :
    let (ms, h) = send_requests gateway (buy 1 ∷ buy 2 ∷ []) in
    (t : OrderServer) × (recv_callback server 12 1000 ms ≡ ok t)
    × (t.fifo_sequencer.pending ≡ [] ++ stamped 1000 (buy 1 ∷ buy 2 ∷ []))
    × (h.next_outgoing_seq_num ≡ t.cid_next_exp_seq_num 3)
    × IsFor t 3 12
send_requests-recv_callback_example =
    send_requests-recv_callback (buy 1 ∷ buy 2 ∷ []) gateway server 12 1000 (omega arith)
      (refl, (refl, tt)) (inr refl) refl (omega arith) (omega arith)

accepted-IsSendable : (id : ℕ) → id < 100 → IsSendable layout (accepted id)
accepted-IsSendable id h n small = record {
  seq_num = small;
  client_id = omega arith;
  ticker_id = omega arith;
  client_order_id = omega arith;
  market_order_id = omega arith;
  price = omega arith;
  exec_qty = omega arith;
  leaves_qty = omega arith;
}

-- Reads of three bytes, in which no message comes whole.
abbrev threes : ℕ → List ℕ
threes zero = []
threes (suc n) = 3 ∷ threes n

threes-some : (n : ℕ) → All (λ k. 1 ≤ k) (threes n)
threes-some zero = tt
threes-some (suc n) = (omega arith, threes-some n)

threes-length : (n : ℕ) → n ≤ length (threes n)
threes-length zero = omega arith
threes-length (suc n) = omega (arith, threes-length n)

-- Client 3 speaks on socket 12.
send_responses-Arrives_example :
    Arrives layout parts server gateway
      (accepted 1 ∷ accepted 2 ∷ [])
      (λ _. init)
      12
      init
      100
      1000
      (threes 100)
unfolding init
send_responses-Arrives_example =
    send_responses-Arrives layout parts (accepted 1 ∷ accepted 2 ∷ []) server gateway (λ _. init) 12
      init 100 1000 (threes 100) (omega arith) (refl, (refl, tt))
      (accepted-IsSendable 1 (omega arith), (accepted-IsSendable 2 (omega arith), tt)) refl refl
      (omega arith) refl refl (omega arith) (omega arith) (omega arith) (threes-some 100)
      (threes-length 100)
