-- ===== src/Exchange/Book/Tests.antt =====
-- The order book's theorems at a concrete level of two orders.
use nano_trade.Base.{
  ◌^◌, ◌+◌, ℕ, ◌<◌, ◌≡◌, refl, arith, false, ◌==◌, if◌then◌else◌, none, some, [], ◌∷◌, ◌++◌,
}
use nano_trade.Base.Int.{pos}
use nano_trade.Base.Outcome.{ok}
use nano_trade.Common.Types.{Side}
use nano_trade.Exchange.Book.{MeOrderBook, MeOrder, order_at}
use nano_trade.Exchange.Book.Levels.{get_orders_at_price, price_to_index}
use nano_trade.Exchange.Book.Links.{order_info}
use nano_trade.Exchange.Book.Orders.{add_order, remove_order}
use nano_trade.Exchange.Book.Notices.{Aggressor}
use nano_trade.Exchange.Book.Matching.{check_for_match}
use nano_trade.Exchange.Book.Fills.{cut}
use nano_trade.Exchange.Book.Frames.{IsResting, IsHeld}
use nano_trade.Exchange.Book.Priority.{FilledInOrder, check_for_match-FilledInOrder}
use nano_trade.Exchange.Book.Queues.{HasOrders, IsFiled, add_order-last}
use nano_trade.Exchange.Book.Removal.{IsGone, remove_order-HasOrders}

-- Orders 0 and 1 rest at the price 100; order 2 has just been made.
abbrev order : ℕ → MeOrder
order o = record {
  ticker_id = 0;
  client_id = 3;
  client_order_id = o;
  market_order_id = o;
  side = Side.buy;
  price = pos 100;
  qty = 10;
  priority = o;
  prev_order = if o == 0 then some 1 else if o == 1 then some 0 else none;
  next_order = if o == 0 then some 1 else if o == 1 then some 0 else none;
}

abbrev book : MeOrderBook
book = record {
  ticker_id = 0;
  cid_oid_to_order = λ c o. none;
  orders_at_price_pool = record {
    store = λ _. record {
      object = record {
        side = Side.buy;
        price = pos 100;
        first_me_order = some 0;
        prev_entry = some 0;
        next_entry = some 0;
      };
      is_free = false;
    };
    size = 8;
    next_free_index = 1;
  };
  bids_by_price = some 0;
  asks_by_price = none;
  price_orders_at_price = λ _. some 0;
  order_pool = record {
    store = λ o. record { object = order o; is_free = false };
    size = 8;
    next_free_index = 3;
  };
  next_market_order_id = 4;
  base_price = pos 0;
  sent = [];
}

level-known : get_orders_at_price (pos 100) book ≡ ok (some 0, book)
unfolding get_orders_at_price price_to_index
level-known = refl

book-HasOrders : HasOrders book 0 (0 ∷ 1 ∷ [])
book-HasOrders = record {
  first = refl;
  queue = record {
    links = (refl, refl, (refl, refl));
    distinct = ((λ e. omega (arith, e), tt), (tt, tt));
  };
}

order-IsFiled : (o : ℕ) → o < 100 → IsFiled (order_at book o)
order-IsFiled o h = record { client = omega arith; id = omega arith }

add_order-last_example :
    (b : MeOrderBook) × (add_order 2 book ≡ ok (tt, b))
    × HasOrders b 0 (0 ∷ (1 ∷ []) ++ 2 ∷ [])
    × (order_info b.order_pool ≡ order_info book.order_pool)
    × (b.cid_oid_to_order 3 2 ≡ some 2)
add_order-last_example =
    add_order-last book 2 0 level-known (order-IsFiled 2 (omega arith)) 0 (1 ∷ []) book-HasOrders
      (λ e. omega (arith, e), (λ e. omega (arith, e), tt))

remove_order-HasOrders_example :
    (b : MeOrderBook) × (remove_order 0 book ≡ ok (tt, b))
    × HasOrders b 0 (1 ∷ [])
    × IsGone book b 0
remove_order-HasOrders_example =
    remove_order-HasOrders book 0 0 level-known (order-IsFiled 0 (omega arith)) (omega arith) refl
      [] (1 ∷ []) book-HasOrders (λ e. ground (arith, e))

-- A seller, to whom all bids at 100 are good enough.
abbrev seller : Aggressor
seller = record {
  client_id = 5;
  client_order_id = 1;
  ticker_id = 0;
  side = Side.sell;
  price = pos 90;
  new_market_order_id = 2 ^ 32 + 9;
}

order-IsHeld : (o : ℕ) → o < 8 → IsHeld book o
order-IsHeld o h = record { inside = h; used = refl }

order-IsResting : (o : ℕ) → o < 100 → IsResting (pos 100) (order_info book.order_pool o)
order-IsResting o h = record {
  price = refl;
  filed = record { client = omega arith; id = omega arith };
  something = omega arith;
}

-- A seller of 14 takes the 10 of order 0, and 4 of order 1.
check_for_match-FilledInOrder_example :
    (b : MeOrderBook) × (check_for_match seller 14 book ≡ ok (0, b))
    × FilledInOrder (cut seller) 0 14 4 (0 ∷ []) 1 [] book b
check_for_match-FilledInOrder_example =
    check_for_match-FilledInOrder seller book (pos 100) 0 4 1 (0 ∷ []) [] refl refl level-known refl
      book-HasOrders (order-IsHeld 0 (omega arith), (order-IsHeld 1 (omega arith), tt))
      (order-IsResting 0 (omega arith), tt) (order-IsResting 1 (omega arith)) (omega arith)
