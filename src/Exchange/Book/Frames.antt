-- ===== src/Exchange/Book/Frames.antt =====
-- What stays of `MEOrderBook` (exchange/matcher/me_order_book.h) while orders leave a price level.
use nano_trade.Base.{
  ℕ, ◌+◌, ◌≤◌, ◌<◌, ◌≡◌, ◌≢◌, refl, ◌∙◌, ap, arith, true, false, Bool, some, List, [], ◌∷◌, map,
  update, update-ne,
}
use nano_trade.Base.Lists.{All}
use nano_trade.Base.Int.{ℤ}
use nano_trade.Base.Outcome.{ok}
use nano_trade.Common.MemPool.{MemPool}
use nano_trade.Exchange.Book.{MeOrderBook, MeOrder}
use nano_trade.Exchange.Book.Links.{order_info, order_free}
use nano_trade.Exchange.Book.Levels.{get_orders_at_price, price_to_index}
use nano_trade.Exchange.Book.Notices.{Aggressor}
use nano_trade.Exchange.Book.Matching.{opposite_best}
use nano_trade.Exchange.Book.Queues.{IsFiled}

-- The orders at some addresses, without their links.
abbrev pub contents : MeOrderBook → List ℕ → List MeOrder
contents b os = map (order_info b.order_pool) os

abbrev pub total_qty : List MeOrder → ℕ
total_qty [] = 0
total_qty (m ∷ ms) = m.qty + total_qty ms

-- An order for at least one that rests at the price `p` under identifiers inside the arrays.
pub record IsResting (p : ℤ) (m : MeOrder) : Type 0 where
  pub price : m.price ≡ p
  pub filed : IsFiled m
  pub something : 1 ≤ m.qty

-- The block of the order is one of the pool's, and in use.
pub record IsHeld (b : MeOrderBook) (o : ℕ) : Type 0 where
  pub inside : o < b.order_pool.size
  pub used : order_free b.order_pool o ≡ false

abbrev pub SameOrder : MeOrderBook → MeOrderBook → ℕ → Type 0
SameOrder b b' o = order_info b'.order_pool o ≡ order_info b.order_pool o

pub contents-eq :
    (b b' : MeOrderBook) (os : List ℕ) → All (SameOrder b b') os → contents b' os ≡ contents b os
contents-eq b b' [] e = refl
contents-eq b b' (o ∷ os) e = rw (e.0, contents-eq b b' os e.1) refl

-- Beside pools, entries and messages the books agree.
abbrev pub SameRest : MeOrderBook → MeOrderBook → Type 0
SameRest b b' =
    record b' {
      order_pool = b.order_pool;
      orders_at_price_pool = b.orders_at_price_pool;
      cid_oid_to_order = b.cid_oid_to_order;
      sent = b.sent;
    }
    ≡ b

-- The pool's flags after the blocks `os` have been given back.
abbrev pub given_back : List ℕ → (ℕ → Bool) → ℕ → Bool
given_back [] f = f
given_back (o ∷ os) f = given_back os (update f o true)

pub same_self : (b : MeOrderBook) (os : List ℕ) → All (SameOrder b b) os
same_self b [] = tt
same_self b (o ∷ os) = (refl, same_self b os)

pub SameRest-trans : (b b' b'' : MeOrderBook) → SameRest b b' → SameRest b' b'' → SameRest b b''
SameRest-trans b b' b'' s t =
    ap {A = MeOrderBook} {B = MeOrderBook}
      (λ x. record x {
        order_pool = b.order_pool;
        orders_at_price_pool = b.orders_at_price_pool;
        cid_oid_to_order = b.cid_oid_to_order;
        sent = b.sent;
      })
      t
    ∙ s

pub known-frame :
    (p : ℤ) (l : ℕ) (b b' : MeOrderBook)
    → SameRest b b'
    → get_orders_at_price p b ≡ ok (some l, b)
    → get_orders_at_price p b' ≡ ok (some l, b')
unfolding get_orders_at_price price_to_index
known-frame p l b b' s h =
    let base : b'.base_price ≡ b.base_price = ap (λ x. x.base_price) s in
    let prices : b'.price_orders_at_price ≡ b.price_orders_at_price =
      ap (λ x. x.price_orders_at_price) s in
    ground (arith, h, base, prices)

pub best-frame :
    (a : Aggressor) (b b' : MeOrderBook)
    → SameRest b b'
    → opposite_best b' a.side ≡ opposite_best b a.side
best-frame a b b' s = ap (λ x. opposite_best x a.side) s

pub IsHeld-frame :
    (b b' : MeOrderBook) (o j : ℕ)
    → order_free b'.order_pool ≡ update (order_free b.order_pool) o true
    → MemPool.size b'.order_pool ≡ MemPool.size b.order_pool
    → j ≢ o
    → IsHeld b j
    → IsHeld b' j
IsHeld-frame b b' o j freed size n u = record {
  inside = rw size u.inside;
  used = ap (λ f. f j) freed ∙ update-ne (order_free b.order_pool) o true j n ∙ u.used;
}
