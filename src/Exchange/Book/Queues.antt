-- ===== src/Exchange/Book/Queues.antt =====
-- `addOrder` and `removeOrder` on a price level that stays: the level's orders are a list in the order
-- of arrival.
use nano_trade.Base.{ℕ, ◌≡◌, ◌<◌, arith, update, Option, none, some, List, [], ◌∷◌, ◌++◌}
use nano_trade.Base.Outcome.{ok}
use nano_trade.Base.Lists.{NotIn, last}
use nano_trade.Common.Types.{me_max_num_clients, me_max_order_ids}
use nano_trade.Exchange.Book.{MeOrderBook, MeOrder, Orders, order_at, level_at}
use nano_trade.Exchange.Book.Links.{order_info}
use nano_trade.Exchange.Book.Levels.{get_orders_at_price}
use nano_trade.Exchange.Book.Orders.{add_order, set_client_order}
use nano_trade.Exchange.Book.Fifo.{
  Queue, append_order-eq, append_order-Queue, appended-info, appended,
}

abbrev pub head? : List ℕ → Option ℕ
head? [] = none
head? (x ∷ xs) = some x

abbrev pub IsQueue : Orders → List ℕ → Type 0
IsQueue p [] = ⊥
IsQueue p (x ∷ xs) = Queue p x xs

-- The level `l` holds the orders `os`, the oldest first.
pub record HasOrders (b : MeOrderBook) (l : ℕ) (os : List ℕ) : Type 0 where
  pub first : (level_at b l).first_me_order ≡ head? os
  pub queue : IsQueue b.order_pool os

-- The identifiers under which an order is filed are inside the arrays.
pub record IsFiled (order : MeOrder) : Type 0 where
  pub client : order.client_id < me_max_num_clients
  pub id : order.client_order_id < me_max_order_ids

abbrev pub filed : MeOrderBook → MeOrder → Option ℕ → MeOrderBook
filed b order v = record b {
  cid_oid_to_order =
      update b.cid_oid_to_order order.client_id
        (update (b.cid_oid_to_order order.client_id) order.client_order_id v);
}

pub set_client_order-eq :
    (b : MeOrderBook) (order : MeOrder) (v : Option ℕ)
    → IsFiled order
    → set_client_order order.client_id order.client_order_id v b ≡ ok (tt, filed b order v)
unfolding set_client_order
set_client_order-eq b order v f = ground (arith, f.client, f.id)

module _ (b : MeOrderBook) (o l : ℕ)
    (known : get_orders_at_price (order_at b o).price b ≡ ok (some l, b))
    (f : IsFiled (order_at b o)) where
  -- An order whose price has a level with orders, which is not yet among them and whose identifiers
  -- are inside the arrays, becomes the last one of the level; the others keep their places, no
  -- order changes but in its links, and the client's entry leads to the new order.
  pub add_order-last :
      (x : ℕ) (xs : List ℕ)
      → HasOrders b l (x ∷ xs)
      → NotIn o (x ∷ xs)
      → (b' : MeOrderBook) × (add_order o b ≡ ok (tt, b'))
        × HasOrders b' l (x ∷ xs ++ o ∷ [])
        × (order_info b'.order_pool ≡ order_info b.order_pool)
        × (b'.cid_oid_to_order (order_at b o).client_id (order_at b o).client_order_id ≡ some o)
  unfolding add_order
  add_order-last x xs h n = (
    filed (record b { order_pool = appended b.order_pool x o (last x xs) }) (order_at b o) (some o),
    rw (known, h.first, append_order-eq b x o xs h.queue)
        (set_client_order-eq _ (order_at b o) (some o) f),
    record { first = h.first; queue = append_order-Queue b x o xs h.queue n },
    appended-info b.order_pool x o (last x xs),
    ground arith,
  )
