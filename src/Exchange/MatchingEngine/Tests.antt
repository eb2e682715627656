-- ===== src/Exchange/MatchingEngine/Tests.antt =====
-- The engine's theorem at the first order of an empty book.
use nano_trade.Base.{ℕ, inl, ◌≡◌, ◌≢◌, refl, arith, []}
use nano_trade.Base.Int.{pos}
use nano_trade.Base.Outcome.{ok}
use nano_trade.Common.Types.{Side, me_max_order_ids, me_max_price_levels}
use nano_trade.Common.LfQueue.{LfQueue}
use nano_trade.Exchange.Messages.{
  MeClientRequest, ClientRequestType, MeMarketUpdate, MarketUpdateType,
}
use nano_trade.Exchange.Book
use nano_trade.Exchange.Book.{MeOrderBook, no_order, no_level}
use nano_trade.Exchange.Book.Notices.{rejected_response}
use nano_trade.Exchange.MatchingEngine.{MatchingEngine, process_client_request}
use nano_trade.Exchange.MatchingEngine.Dispatch.{HasSent}
use nano_trade.Exchange.MatchingEngine.Cases.{aggressor, accepting, CanEnter, enters}
use nano_trade.Exchange.MatchingEngine.Handling.{process_client_request-Handled}
use nano_trade.Exchange.Book.Resting.{CanRest, IsRested}
use nano_trade.Exchange.Book.Levels.{price_to_index, sub_i64}
use nano_trade.Common.MemPool.Full.{init-IsReady, free_count-init}

abbrev request : MeClientRequest
request = record {
  type = ClientRequestType.new;
  client_id = 3;
  ticker_id = 2;
  order_id = 1;
  side = Side.sell;
  price = pos 90;
  qty = 5;
}

abbrev update : MeMarketUpdate
update = record {
  type = MarketUpdateType.invalid;
  order_id = 0;
  ticker_id = 0;
  side = Side.sell;
  price = pos 90;
  qty = 5;
  priority = 1;
}

abbrev empty_queue : {T : Type 0} → T → LfQueue T
empty_queue x = record {
  store = λ _. x;
  capacity = 4;
  next_write_index = 0;
  next_read_index = 0;
  num_elements = 0;
}

abbrev engine : MatchingEngine
engine = record {
  ticker_order_book = λ t. Book.init t (pos 0);
  incoming_requests = empty_queue request;
  outgoing_ogw_responses = empty_queue (rejected_response 0 0 0);
  outgoing_md_updates = empty_queue update;
}

abbrev empty_book : MeOrderBook
empty_book = Book.init 2 (pos 0)

index_90 :
    price_to_index (pos 90) (accepting empty_book request) ≡ ok (90, accepting empty_book request)
unfolding price_to_index sub_i64 Book.init
index_90 = refl

request-CanRest :
    CanRest (accepting empty_book request) (aggressor request empty_book.next_market_order_id) 90 []
unfolding Book.init
request-CanRest = record {
  filed = index_90;
  unknown = refl;
  client = omega arith;
  id = omega arith;
  sided = refl;
  orders_ready = init-IsReady no_order no_order me_max_order_ids (omega arith);
  orders_room = rw (free_count-init no_order no_order me_max_order_ids) (omega arith);
  levels_ready = init-IsReady no_level no_level me_max_price_levels (omega arith);
  levels_room = rw (free_count-init no_level no_level me_max_price_levels) (omega arith);
  has = record { first = refl; ring = tt };
  ranked = tt;
  inside = tt;
  used = tt;
  other_prices = tt;
}

request-CanEnter : CanEnter empty_book request 90 []
unfolding Book.init
request-CanEnter = record {
  is_new = refl;
  something = omega arith;
  nothing = inl refl;
  room = request-CanRest;
}

process_client_request-Handled_example :
    (f : MatchingEngine) × (process_client_request engine request ≡ ok f)
    × IsRested
        (accepting empty_book request)
        (f.ticker_order_book 2)
        (aggressor request empty_book.next_market_order_id)
        5
        90
        []
    × HasSent engine f (f.ticker_order_book 2).sent
    × ((t : ℕ) → t ≢ 2 → f.ticker_order_book t ≡ engine.ticker_order_book t)
process_client_request-Handled_example =
    process_client_request-Handled engine request (omega arith) (enters 90 [] request-CanEnter)
