-- ===== src/Trading/MarketOrderBook/Sample.antt =====
-- A book of two orders, for tests.
use nano_trade.Base.{ℕ, refl, arith, ltb, ◌==◌, if◌then◌else◌, none, some, [], ◌∷◌}
use nano_trade.Base.Int.{pos, ◌+ℤ◌}
use nano_trade.Common.Types.{Side}
use nano_trade.Common.MemPool.Count.{count_free}
use nano_trade.Exchange.Messages.{MeMarketUpdate, MarketUpdateType}
use nano_trade.Trading.MarketOrder.{MarketOrder, Bbo}
use nano_trade.Trading.MarketOrderBook.{MarketOrderBook}
use nano_trade.Trading.MarketOrderBook.Best.{Holds}
use nano_trade.Trading.MarketOrderBook.Adds.{CanJoin}

-- Orders 0 and 1 rest at the price 100, of 10 and 20 shares.
abbrev pub resting : ℕ → MarketOrder
resting o = record {
  order_id = o;
  side = Side.buy;
  price = pos 100;
  qty = if o == 0 then 10 else 20;
  priority = o;
  prev_order = if o == 0 then some 1 else if o == 1 then some 0 else none;
  next_order = if o == 0 then some 1 else if o == 1 then some 0 else none;
}

abbrev pub quoted : Bbo
quoted = record { bid_price = pos 100; ask_price = pos 101; bid_qty = 30; ask_qty = 5 }

abbrev pub book : MarketOrderBook
book = record {
  ticker_id = 0;
  oid_to_order = λ o. if ltb o 2 then some o else none;
  orders_at_price_pool = record {
    store = λ l. record {
      object = record {
        side = Side.buy;
        price = pos 100;
        first_mkt_order = some 0;
        prev_entry = some 0;
        next_entry = some 0;
      };
      is_free = ltb 0 l;
    };
    size = 4;
    next_free_index = 1;
  };
  bids_by_price = some 0;
  asks_by_price = none;
  price_orders_at_price = λ i. if i == 10 then some 0 else none;
  order_pool = record {
    store = λ o. record { object = resting o; is_free = ltb 1 o };
    size = 4;
    next_free_index = 2;
  };
  bbo = quoted;
  base_price = pos 90;
  notices = [];
}

pub book-Holds : Holds book 0 0 (1 ∷ [])
book-Holds = record {
  head = refl;
  queue = record {
    links = (refl, refl, (refl, refl));
    distinct = ((λ e. omega (arith, e), tt), (tt, tt));
  };
  in_pool = (omega arith, (omega arith, tt));
  qty_fits = omega arith;
}

abbrev pub bid : (order_id qty : ℕ) → MeMarketUpdate
bid order_id qty = record {
  type = MarketUpdateType.add;
  order_id = order_id;
  ticker_id = 0;
  side = Side.buy;
  price = pos 100;
  qty = qty;
  priority = 3;
}

pub book-CanJoin : CanJoin book (bid 7 40) 0 0 (1 ∷ [])
unfolding count_free ◌+ℤ◌
book-CanJoin = record {
  is_add = refl;
  is_bid = refl;
  best = refl;
  same_price = refl;
  offset = 10;
  in_window = (refl, omega arith);
  known = refl;
  fits = omega arith;
  holds = book-Holds;
  ready = record { in_range = omega arith; ready = refl };
  room = omega arith;
  used = (refl, (refl, tt));
}
