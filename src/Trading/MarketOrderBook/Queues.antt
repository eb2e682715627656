-- ===== src/Trading/MarketOrderBook/Queues.antt =====
-- The orders of a price level of `MarketOrderBook` form a ring in the order of their arrival.
use nano_trade.Base.{ℕ, ◌≡◌, arith, fun_ext, ap, update, Option, none, some, List}
use nano_trade.Base.Lists.{last}
use nano_trade.Base.Outcome.{ok}
use nano_trade.Base.Ring.{Links, Seg-last}
use nano_trade.Base.Linked.{Linked, InRing, appended}
use nano_trade.Trading.MarketOrder.{MarketOrder}
use nano_trade.Trading.MarketOrderBook.{
  MarketOrderBook, Orders, order, put_prev_order, put_next_order,
}
use nano_trade.Trading.MarketOrderBook.Orders.{append_order}

abbrev pub order_next : Orders → Links
order_next p o = (order p o).next_order

abbrev pub order_prev : Orders → Links
order_prev p o = (order p o).prev_order

-- An order without its links.
abbrev pub order_info : Orders → ℕ → MarketOrder
order_info p o = record (order p o) { prev_order = none; next_order = none }

module _ (p : Orders) (i : ℕ) (v : Option ℕ) where
  pub next-put_next : order_next (put_next_order p i v) ≡ update (order_next p) i v
  unfolding put_next_order
  next-put_next = fun_ext λ j. ground arith

  pub next-put_prev : order_next (put_prev_order p i v) ≡ order_next p
  unfolding put_prev_order
  next-put_prev = fun_ext λ j. ground arith

  pub prev-put_next : order_prev (put_next_order p i v) ≡ order_prev p
  unfolding put_next_order
  prev-put_next = fun_ext λ j. ground arith

  pub prev-put_prev : order_prev (put_prev_order p i v) ≡ update (order_prev p) i v
  unfolding put_prev_order
  prev-put_prev = fun_ext λ j. ground arith

  pub info-put_next : order_info (put_next_order p i v) ≡ order_info p
  unfolding put_next_order
  info-put_next = fun_ext λ j. ground arith

  pub info-put_prev : order_info (put_prev_order p i v) ≡ order_info p
  unfolding put_prev_order
  info-put_prev = fun_ext λ j. ground arith

abbrev pub market_orders : Linked Orders (ℕ → MarketOrder)
market_orders = record {
  next = order_next;
  prev = order_prev;
  info = order_info;
  put_next = put_next_order;
  put_prev = put_prev_order;
  next-put_next = next-put_next;
  next-put_prev = next-put_prev;
  prev-put_next = prev-put_next;
  prev-put_prev = prev-put_prev;
  info-put_next = info-put_next;
  info-put_prev = info-put_prev;
}

-- The orders `first ∷ rest` of a level, oldest first.
abbrev pub Queue : Orders → ℕ → List ℕ → Type 0
Queue p first rest = InRing market_orders p first rest

module _ (b : MarketOrderBook) (first o : ℕ) (rest : List ℕ)
    (r : Queue b.order_pool first rest) where
  pub append_order-eq :
      append_order first o b
      ≡ ok (
        tt,
        record b { order_pool = appended market_orders b.order_pool first o (last first rest) },
      )
  unfolding append_order
  append_order-eq = rw (
    Seg-last _ _ first first rest r.links,
    ap (λ f. f first) (prev-put_next b.order_pool (last first rest) (some o)),
    Seg-last _ _ first first rest r.links,
  )
