-- ===== src/Trading/MarketOrderBook/Tests.antt =====
-- The theorems of the client's book at concrete books.
use nano_trade.Base.{◌≡◌, refl, arith, none, some, [], ◌∷◌}
use nano_trade.Base.Int.{pos, ◌+ℤ◌}
use nano_trade.Base.Outcome.{ok}
use nano_trade.Common.Types.{Side}
use nano_trade.Common.MemPool.Count.{count_free}
use nano_trade.Trading.MarketOrderBook.{MarketOrderBook, Notice}
use nano_trade.Trading.MarketOrderBook.Updates.{on_market_update, best_of}
use nano_trade.Trading.MarketOrderBook.Best.{best_of-total}
use nano_trade.Trading.MarketOrderBook.Adds.{HasJoined, on_market_update-HasJoined}
use nano_trade.Trading.MarketOrderBook.Starts.{CanStart, best_level, on_market_update-stale}
use nano_trade.Trading.MarketOrderBook.Sample.{quoted, book, book-Holds, bid, book-CanJoin}

best_of-total_example : best_of book (some 0) ≡ ok (pos 100, 30)
best_of-total_example = best_of-total book 0 0 (1 ∷ []) book-Holds

on_market_update-HasJoined_example :
    (b' : MarketOrderBook) × (on_market_update (bid 7 40) book ≡ ok (tt, b'))
    × HasJoined book b' (bid 7 40) 0 0 2 (1 ∷ [])
on_market_update-HasJoined_example =
    on_market_update-HasJoined book (bid 7 40) 0 0 (1 ∷ []) book-CanJoin

-- The book when its last bid has gone: the best bid that was last quoted is still there.
abbrev no_bids : MarketOrderBook
no_bids = record book { bids_by_price = none; price_orders_at_price = λ _. none }

no_bids-CanStart : CanStart no_bids (bid 7 40)
unfolding count_free ◌+ℤ◌
no_bids-CanStart = record {
  is_add = refl;
  is_bid = refl;
  no_bids = refl;
  offset = 10;
  in_window = (refl, omega arith);
  unknown = refl;
  fits = omega arith;
  orders_ready = record { in_range = omega arith; ready = refl };
  orders_room = omega arith;
  levels_ready = record { in_range = omega arith; ready = refl };
  levels_room = omega arith;
}

on_market_update-stale_example :
    (b' : MarketOrderBook) × (on_market_update (bid 7 40) no_bids ≡ ok (tt, b'))
    × (b'.bids_by_price ≡ some 1)
    × (best_level no_bids (bid 7 40) no_bids-CanStart b' ≡ (pos 100, some 2))
    × (b'.oid_to_order 7 ≡ some 2)
    × (b'.bbo ≡ quoted)
    × (b'.notices ≡ Notice.order_book_update 0 (pos 100) Side.buy quoted ∷ [])
on_market_update-stale_example = on_market_update-stale no_bids (bid 7 40) no_bids-CanStart
