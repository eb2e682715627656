-- ===== src/Exchange/Book/Fifo.antt =====
-- Within a price level the orders form a ring in the order of their arrival: `addOrder` puts an order
-- at its end, and `removeOrder` takes out the order that it is given.
use nano_trade.Base.{
  ℕ, ◌≡◌, ap, same_ptr, if◌then◌else◌, Bool-cases, inl, inr, some, List, [], ◌∷◌, ◌++◌,
}
use nano_trade.Base.Outcome.{ok}
use nano_trade.Base.Lists.{NotIn, last}
use nano_trade.Base.Ring.{Seg-last}
use nano_trade.Base.Linked
use nano_trade.Base.Linked.{InRing, appended-InRing, unlinked-InRing}
use nano_trade.Exchange.Book.{MeOrderBook, Orders, level_at, put_first_me_order}
use nano_trade.Exchange.Book.Links.{order_info, prev-put_next, me_orders}
use nano_trade.Exchange.Book.Orders.{append_order, unlink_order}

-- The orders `first ∷ rest` of a level, oldest first.
abbrev pub Queue : Orders → ℕ → List ℕ → Type 0
Queue p first rest = InRing me_orders p first rest

-- The pool that `append_order` leaves, with `l` the last order of the ring.
abbrev pub appended : Orders → (first o l : ℕ) → Orders
appended = Linked.appended me_orders

pub appended-info : (p : Orders) (first o l : ℕ) → order_info (appended p first o l) ≡ order_info p
appended-info = Linked.appended-info me_orders

module _ (b : MeOrderBook) (first o : ℕ) (rest : List ℕ) (r : Queue b.order_pool first rest) where
  pub append_order-eq :
      append_order first o b
      ≡ ok (tt, record b { order_pool = appended b.order_pool first o (last first rest) })
  unfolding append_order
  append_order-eq = rw (
    Seg-last _ _ first first rest r.links,
    ap (λ f. f first) (prev-put_next b.order_pool (last first rest) (some o)),
    Seg-last _ _ first first rest r.links,
  )

  -- An order put in by `append_order` is the last of its level, and changes no other.
  pub append_order-Queue :
      NotIn o (first ∷ rest)
      → Queue (appended b.order_pool first o (last first rest)) first (rest ++ o ∷ [])
  append_order-Queue n = appended-InRing me_orders b.order_pool first o rest r n

-- The pool that `unlink_order` leaves.
abbrev pub unlinked : Orders → (o before after : ℕ) → Orders
unlinked = Linked.unlinked me_orders

pub unlinked-info :
    (p : Orders) (o before after : ℕ) → order_info (unlinked p o before after) ≡ order_info p
unlinked-info = Linked.unlinked-info me_orders

-- What is left of a level when its order `o`, which others follow, has been unlinked.
pub unlinked-Queue :
    (p : Orders) (o y : ℕ) (ys : List ℕ)
    → Queue p o (y ∷ ys)
    → Queue (unlinked p o (last y ys) y) y ys
unlinked-Queue = unlinked-InRing me_orders

-- `unlink_order` on an order with its neighbours.
pub unlink_order-eq :
    (b : MeOrderBook) (l o y : ℕ) (ys : List ℕ)
    → Queue b.order_pool o (y ∷ ys)
    → unlink_order (some l) o b
      ≡ ok (
        tt,
        record b {
          order_pool = unlinked b.order_pool o (last y ys) y;
          orders_at_price_pool =
              if same_ptr (level_at b l).first_me_order (some o)
              then put_first_me_order b.orders_at_price_pool l (some y)
              else b.orders_at_price_pool;
        },
      )
unfolding unlink_order
unlink_order-eq b l o y ys r =
    rw (Seg-last _ _ o o (y ∷ ys) r.links, r.links.0)
      (elim (Bool-cases (same_ptr (level_at b l).first_me_order (some o))) [
        | inl e ↦ rw e
        | inr e ↦ rw e
      ])
