-- ===== src/Trading/MarketOrderBook/Best.antt =====
-- The best bid and offer as what the best level of each side holds.
use nano_trade.Base.{
  ℕ, zero, suc, ◌+◌, ◌^◌, ◌<◌, ◌≡◌, ap, ◌∙◌, arith, ==-self, ==-ne, some, List, [], ◌∷◌,
}
use nano_trade.Base.Lists.{All, length, NotIn}
use nano_trade.Base.Outcome.{ok}
use nano_trade.Base.Ring.{Seg}
use nano_trade.Base.Distinct.{Distinct-length}
use nano_trade.Common.Types.{to_qty}
use nano_trade.Trading.MarketOrder.{MarketOrder}
use nano_trade.Trading.MarketOrderBook.{MarketOrderBook, Orders, order, level_at}
use nano_trade.Trading.MarketOrderBook.Updates.{sum_qty, best_of}
use nano_trade.Trading.MarketOrderBook.Queues.{Queue, order_next, order_prev, order_info}

-- The quantities of the orders of a list.
abbrev pub total : (ℕ → MarketOrder) → List ℕ → ℕ
total f [] = 0
total f (o ∷ os) = (f o).qty + total f os

sum_qty-Seg :
    (p : Orders) (first a : ℕ) (xs : List ℕ) (fuel qty : ℕ)
    → Seg (order_next p) (order_prev p) a xs first
    → NotIn first xs
    → length xs < fuel
    → qty < 2 ^ 32
    → sum_qty fuel p first (order_next p a) qty ≡ ok (to_qty (qty + total (order_info p) xs))
unfolding sum_qty
sum_qty-Seg p first a xs zero qty s n h q = absurd (omega (arith, h))
sum_qty-Seg p first a [] (suc fuel) qty s n h q =
    rw (s.0, sum_qty, ==-self first) (ap ok (omega (arith, q)))
sum_qty-Seg p first a (x ∷ xs) (suc fuel) qty s n h q =
    rw (s.0, sum_qty, ==-ne x first n.0)
      (sum_qty-Seg p first x xs fuel (to_qty (qty + (order p x).qty)) s.2 n.1 (omega (arith, h))
          (omega arith)
        ∙ ap ok (omega arith))

-- The level `l` holds the orders `first ∷ rest`, which lie in the pool.
pub record Holds (b : MarketOrderBook) (l first : ℕ) (rest : List ℕ) : Type 0 where
  pub head : (level_at b l).first_mkt_order ≡ some first
  pub queue : Queue b.order_pool first rest
  pub in_pool : All (λ o. o < b.order_pool.size) (first ∷ rest)
  pub qty_fits : (order b.order_pool first).qty < 2 ^ 32

-- For a best level whose orders form a ring in the pool: the loop of `updateBBO` ends, and gives
-- the price of the level and the sum of the quantities of all its orders, modulo 2 ^ 32.
pub best_of-total :
    (b : MarketOrderBook) (l first : ℕ) (rest : List ℕ)
    → Holds b l first rest
    → best_of b (some l)
      ≡ ok ((level_at b l).price, to_qty (total (order_info b.order_pool) (first ∷ rest)))
unfolding best_of
best_of-total b l first rest h = rw (
  h.head,
  best_of,
  sum_qty-Seg b.order_pool first first rest (b.order_pool.size + 1) (order b.order_pool first).qty
      h.queue.links h.queue.distinct.0
      (omega (arith, Distinct-length b.order_pool.size (first ∷ rest) h.queue.distinct h.in_pool))
      h.qty_fits,
)
