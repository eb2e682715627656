-- ===== src/Exchange/Book/LevelTests.antt =====
-- The order book's theorems at concrete levels: bids at 100 and at 98, and an order for 99.
use nano_trade.Base.{
  ℕ, ◌<◌, ◌≡◌, ◌≢◌, refl, ap, arith, ◌==◌, ◌&&◌, ◌++◌, leb, if◌then◌else◌, none, some, [], ◌∷◌,
}
use nano_trade.Base.Int.{pos, pos_part}
use nano_trade.Base.Outcome.{ok}
use nano_trade.Common.Types.{Side}
use nano_trade.Common.MemPool.Count.{free_count, count_free}
use nano_trade.Exchange.Book.{MeOrderBook, MeOrder, order_at, to_client}
use nano_trade.Exchange.Book.Levels.{price_to_index, sub_i64}
use nano_trade.Exchange.Book.Orders.{add_order}
use nano_trade.Exchange.Book.Ladder.{HasLevels}
use nano_trade.Exchange.Book.Queues.{IsFiled}
use nano_trade.Exchange.Book.Lone.{IsAlone}
use nano_trade.Exchange.Book.Notices.{rejected_response}
use nano_trade.Exchange.Book.Matching.{cancel}
use nano_trade.Exchange.Book.Cancels.{IsCanceled, cancel_messages, with_sent, cancel-IsCanceled}
use nano_trade.Exchange.Book.Opening.{CanOpen, IsOpened, add_order-IsOpened}

-- Orders 0 and 1 are alone in the levels 0 and 1; order 2 has just been made.
abbrev lone_order : ℕ → MeOrder
lone_order o = record {
  ticker_id = 0;
  client_id = 3;
  client_order_id = o;
  market_order_id = o;
  side = Side.buy;
  price = if o == 0 then pos 100 else if o == 1 then pos 98 else pos 99;
  qty = 10;
  priority = 1;
  prev_order = if o == 2 then none else some o;
  next_order = if o == 2 then none else some o;
}

abbrev bids : MeOrderBook
bids = record {
  ticker_id = 0;
  cid_oid_to_order = λ c o. none;
  orders_at_price_pool = record {
    store = λ l. record {
      object = record {
        side = Side.buy;
        price = if l == 0 then pos 100 else pos 98;
        first_me_order = some l;
        prev_entry = if l == 0 then some 1 else some 0;
        next_entry = if l == 0 then some 1 else some 0;
      };
      is_free = leb 2 l;
    };
    size = 8;
    next_free_index = 2;
  };
  bids_by_price = some 0;
  asks_by_price = none;
  price_orders_at_price = λ i. if i == 100 then some 0 else if i == 98 then some 1 else none;
  order_pool = record {
    store = λ o. record { object = lone_order o; is_free = leb 3 o };
    size = 8;
    next_free_index = 3;
  };
  next_market_order_id = 4;
  base_price = pos 0;
  sent = [];
}

bids-HasLevels : HasLevels bids Side.buy (0 ∷ 1 ∷ [])
bids-HasLevels = record {
  first = refl;
  ring = record {
    links = (refl, refl, (refl, refl));
    distinct = ((λ e. omega (arith, e), tt), (tt, tt));
  };
}

bids-IsFiled : (o : ℕ) → o < 100 → IsFiled (order_at bids o)
bids-IsFiled o h = record { client = omega arith; id = omega arith }

other_price : (p q : ℕ) → p ≢ q → pos p ≢ pos q
other_price p q n e = n (ap pos_part e)

index_99 : price_to_index (pos 99) bids ≡ ok (99, bids)
unfolding price_to_index sub_i64
index_99 = refl

bids-room : 2 < free_count bids.orders_at_price_pool
unfolding count_free
bids-room = omega arith

bids-CanOpen : CanOpen bids 2 99 (0 ∷ 1 ∷ [])
bids-CanOpen = record {
  filed = index_99;
  unknown = refl;
  ids = bids-IsFiled 2 (omega arith);
  sided = refl;
  ready = record { in_range = omega arith; ready = refl };
  room = omega (arith, bids-room);
  has = bids-HasLevels;
  ranked = (refl, tt);
  inside = (omega arith, (omega arith, tt));
  used = (refl, (refl, tt));
  other_prices =
      (other_price 99 100 (λ e. omega (arith, e)), (other_price 99 98 (λ e. omega (arith, e)), tt));
}

-- The level of 99 comes between the other two.
add_order-IsOpened_example :
    (b : MeOrderBook) × (add_order 2 bids ≡ ok (tt, b)) × IsOpened bids b 2 2 99 (0 ∷ 2 ∷ 1 ∷ [])
add_order-IsOpened_example = add_order-IsOpened bids 2 99 (0 ∷ 1 ∷ []) bids-CanOpen

-- The bid at 100 is known to its client.
abbrev known_bids : MeOrderBook
known_bids = record bids { cid_oid_to_order = λ c o. if (c == 3) && (o == 0) then some 0 else none }

known_index : price_to_index (pos 100) known_bids ≡ ok (100, known_bids)
unfolding price_to_index sub_i64
known_index = refl

known_bids-IsAlone : IsAlone known_bids 0 0 100 [] (1 ∷ [])
known_bids-IsAlone = record {
  index = known_index;
  known = refl;
  orders = record { first = refl; queue = record { links = (refl, refl); distinct = (tt, tt) } };
  ids = record { client = omega arith; id = omega arith };
  inside = omega arith;
  used = refl;
  level_inside = omega arith;
  level_used = refl;
  has = record { first = refl; ring = bids-HasLevels.ring };
  ranked = (refl, tt);
}

-- Without its only order the best level goes.
cancel-IsCanceled_example :
    (b : MeOrderBook) × (cancel 3 0 0 known_bids ≡ ok (tt, b))
    × IsCanceled known_bids b 0 0 100 (1 ∷ []) (cancel_messages 3 0 0 (order_at known_bids 0))
    × (cancel 3 0 0 b ≡ ok (tt, with_sent b (b.sent ++ to_client (rejected_response 3 0 0) ∷ [])))
cancel-IsCanceled_example =
    cancel-IsCanceled known_bids 3 0 0 0 0 100 [] (1 ∷ []) refl refl refl known_bids-IsAlone
