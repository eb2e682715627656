-- ===== src/Trading/TradeEngine/Tests.antt =====
-- The trade engine with two responses in its queue.
use nano_trade.Base.{ℕ, ◌≡◌, inl, refl, arith, some, if◌then◌else◌, ◌==◌, [], ◌∷◌}
use nano_trade.Base.Int.{pos, negsuc}
use nano_trade.Base.Double.{Double, Hundredths, hundredths}
use nano_trade.Base.Outcome.{ok}
use nano_trade.Common.Types.{Side}
use nano_trade.Common.LfQueue.{LfQueue}
use nano_trade.Common.LfQueue
use nano_trade.Common.LfQueue.Fifo.{contents}
use nano_trade.Exchange.Messages.{
  MeClientRequest, ClientRequestType, MeClientResponse, ClientResponseType, MeMarketUpdate,
  MarketUpdateType,
}
use nano_trade.Trading.FeatureEngine.{TradeEngineCfg}
use nano_trade.Trading.TradeEngine.{TradeEngine, AlgoType, init, drain_responses, process_update}
use nano_trade.Trading.MarketOrder.{Bbo}
use nano_trade.Trading.MarketOrderBook.Sample.{book, bid, book-CanJoin}
use nano_trade.Trading.TradeEngine.Quoting.{HasQuoted, process_update-HasQuoted}
use nano_trade.Trading.TradeEngine.Responses.{HasHandled, drain_responses-HasHandled}

instance abbrev in_hundredths : Double Hundredths
in_hundredths = hundredths

abbrev cfg : ℕ → TradeEngineCfg Hundredths
cfg t = record {
  clip = 10;
  threshold = some (pos 60);
  risk_cfg = record { max_order_size = 20; max_position = 50; max_loss = some (negsuc 99) };
}

abbrev response : ClientResponseType → (exec_qty leaves_qty : ℕ) → MeClientResponse
response type exec_qty leaves_qty = record {
  type = type;
  client_id = 1;
  ticker_id = 2;
  client_order_id = 1;
  market_order_id = 7;
  side = Side.buy;
  price = pos 100;
  exec_qty = exec_qty;
  leaves_qty = leaves_qty;
}

abbrev accepted : MeClientResponse
accepted = response ClientResponseType.accepted 0 10

abbrev filled : MeClientResponse
filled = response ClientResponseType.filled 4 6

-- The oldest response stands in the last slot.
abbrev responses : LfQueue MeClientResponse
responses = record {
  store = λ i. if i == 3 then accepted else filled;
  capacity = 4;
  next_write_index = 1;
  next_read_index = 3;
  num_elements = 2;
}

abbrev request : MeClientRequest
request = record {
  type = ClientRequestType.invalid;
  client_id = 0;
  ticker_id = 0;
  order_id = 0;
  side = Side.invalid;
  price = pos 0;
  qty = 0;
}

abbrev update : MeMarketUpdate
update = record {
  type = MarketUpdateType.invalid;
  order_id = 0;
  ticker_id = 0;
  side = Side.invalid;
  price = pos 0;
  qty = 0;
  priority = 0;
}

abbrev engine : TradeEngine Hundredths
engine =
    init 1 AlgoType.maker cfg (LfQueue.init request 4) responses (LfQueue.init update 4)
      (λ t. pos 0) (λ t side. some (pos 0))

drain_responses-HasHandled_example :
    (f : TradeEngine Hundredths) × (drain_responses 3 engine ≡ ok f)
    × HasHandled engine f (accepted ∷ filled ∷ [])
    × (contents f.incoming_ogw_responses ≡ [])
unfolding init LfQueue.size
drain_responses-HasHandled_example =
    drain_responses-HasHandled engine (inl refl)
      (record { small = omega arith; read_in = omega arith; fits = omega arith; write_at = refl })
      (omega arith, (omega arith, tt))

-- The engine once it has the book of two orders.
abbrev informed : TradeEngine Hundredths
informed = record engine { ticker_order_book = λ t. book }

process_update-HasQuoted_example :
    (f : TradeEngine Hundredths) × (bbo : Bbo) × (process_update informed (bid 7 40) ≡ ok f)
    × HasQuoted informed f (bid 7 40) 0 0 (1 ∷ []) bbo
unfolding init
process_update-HasQuoted_example =
    process_update-HasQuoted informed (bid 7 40) 0 0 (1 ∷ []) refl (omega arith) book-CanJoin
