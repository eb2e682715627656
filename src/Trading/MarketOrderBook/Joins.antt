-- ===== src/Trading/MarketOrderBook/Joins.antt =====
-- The steps of `onMarketUpdate` on an order that is added: its price, its block in the pool, and its
-- place behind the orders of its level.
use nano_trade.Base.{
  ℕ, ◌+◌, ◌<◌, ◌≡◌, ◌≢◌, refl, sym, ap₂, subst₂, fun_ext, arith, Option-cases, inl, inr, false,
  some, List, [], ◌∷◌, ◌++◌, update,
}
use nano_trade.Base.Lists.{NotIn, last}
use nano_trade.Base.Int.{ℤ, pos, ◌+ℤ◌, ◌-ℤ◌}
use nano_trade.Base.Outcome.{ok}
use nano_trade.Base.Ring.{Seg, Seg-update_next, Seg-update_prev}
use nano_trade.Base.Linked.{appended}
use nano_trade.Exchange.Messages.{MeMarketUpdate}
use nano_trade.Common.Types.{Side, me_max_price_levels, me_max_order_ids}
use nano_trade.Common.MemPool.{MemPool}
use nano_trade.Common.MemPool.Full.{Allocated}
use nano_trade.Trading.MarketOrder.{MarketOrder}
use nano_trade.Trading.MarketOrderBook.{
  MarketOrderBook, Orders, order, level_at, put_next_order, put_prev_order,
}
use nano_trade.Trading.MarketOrderBook.Levels.{price_to_index, sub_i64, get_orders_at_price}
use nano_trade.Trading.MarketOrderBook.Orders.{add_order, set_order}
use nano_trade.Trading.MarketOrderBook.Queues.{
  Queue, order_next, order_prev, order_info, market_orders, append_order-eq,
}
use nano_trade.Trading.MarketOrderBook.Updates.{ask_updated}
use nano_trade.Trading.MarketOrderBook.Best.{total}

-- Prices inside the window of the book.
pub price_to_index-inside :
    (b : MarketOrderBook) (price : ℤ) (i : ℕ)
    → price ≡ b.base_price +ℤ pos i
    → i < me_max_price_levels
    → price_to_index price b ≡ ok (i, b)
unfolding price_to_index sub_i64 ◌-ℤ◌ ◌+ℤ◌
price_to_index-inside b price i e h = rw e (ground arith)

pub get_orders_at_price-inside :
    (b : MarketOrderBook) (price : ℤ) (i : ℕ)
    → price ≡ b.base_price +ℤ pos i
    → i < me_max_price_levels
    → get_orders_at_price price b ≡ ok (b.price_orders_at_price i, b)
unfolding get_orders_at_price
get_orders_at_price-inside b price i e h = rw (price_to_index-inside b price i e h) refl

-- The book after the order `o` has been put behind the orders `first ∷ rest`.
abbrev pub joined : MarketOrderBook → (first o : ℕ) (rest : List ℕ) → MarketOrderBook
joined b first o rest = record b {
  order_pool = appended market_orders b.order_pool first o (last first rest);
  oid_to_order = update b.oid_to_order (order b.order_pool o).order_id (some o);
}

pub add_order-joined :
    (b : MarketOrderBook) (o l first : ℕ) (rest : List ℕ)
    → get_orders_at_price (order b.order_pool o).price b ≡ ok (some l, b)
    → (order b.order_pool o).order_id < me_max_order_ids
    → (level_at b l).first_mkt_order ≡ some first
    → Queue b.order_pool first rest
    → add_order o b ≡ ok (tt, joined b first o rest)
unfolding add_order set_order
add_order-joined b o l first rest known fits head r =
    rw (known, head, append_order-eq b first o rest r) (ground (arith, fits))

pub appended-size :
    (p : Orders) (first o x : ℕ)
    → MemPool.size (appended market_orders p first o x) ≡ MemPool.size p
unfolding put_next_order put_prev_order
appended-size p first o x = refl

-- The pool after a block outside the ring has been handed out.
module _ (p q : Orders) (x : MarketOrder) (a : Allocated p q x) where
  pub taken-next : order_next q ≡ update (order_next p) p.next_free_index x.next_order
  taken-next = rw a.blocks (fun_ext λ j. ground arith)

  pub taken-prev : order_prev q ≡ update (order_prev p) p.next_free_index x.prev_order
  taken-prev = rw a.blocks (fun_ext λ j. ground arith)

  pub taken-info : (o : ℕ) → o ≢ p.next_free_index → order_info q o ≡ order_info p o
  taken-info o n = rw a.blocks (ground arith)

  pub taken-order : order q p.next_free_index ≡ x
  taken-order = rw a.blocks (ground arith)

  pub taken-Queue :
      (first : ℕ) (rest : List ℕ)
      → NotIn p.next_free_index (first ∷ rest)
      → Queue p first rest
      → Queue q first rest
  taken-Queue first rest n r = record {
    links =
        subst₂ (λ f g. Seg f g first rest first) (sym taken-next) (sym taken-prev)
          (Seg-update_next _ _ p.next_free_index x.next_order first first rest n
            (Seg-update_prev _ _ p.next_free_index x.prev_order first first rest n.1 n.0 r.links));
    distinct = r.distinct;
  }

pub total-away :
    (f g : ℕ → MarketOrder) (o : ℕ) (xs : List ℕ)
    → ((x : ℕ) → x ≢ o → f x ≡ g x)
    → NotIn o xs
    → total f xs ≡ total g xs
total-away f g o [] e n = refl
total-away f g o (x ∷ xs) e n = ap₂ (λ a b. a.qty + b) (e x n.0) (total-away f g o xs e n.1)

pub total-append :
    (f : ℕ → MarketOrder) (xs : List ℕ) (o : ℕ) → total f (xs ++ o ∷ []) ≡ total f xs + (f o).qty
total-append f [] o = omega arith
total-append f (x ∷ xs) o = omega (arith, total-append f xs o)

pub ask_updated-buy :
    (b : MarketOrderBook) (u : MeMarketUpdate) → u.side ≡ Side.buy → ask_updated b u ≡ false
unfolding ask_updated
ask_updated-buy b u e = elim (Option-cases b.asks_by_price) [
  | inl n ↦ rw (ask_updated, n) refl
  | inr (a, s) ↦ ground (arith, s, e)
]
