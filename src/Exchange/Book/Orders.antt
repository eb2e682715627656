-- ===== src/Exchange/Book/Orders.antt =====
-- The orders of a price level in `MEOrderBook`: `addOrder` and `removeOrder`.
use nano_trade.Base.{ℕ, ◌&&◌, ltb, same_ptr, if◌then◌else◌, update, Option, none, some}
use nano_trade.Base.Outcome.{ok, fault, out_of_range, pure, abort, ◌>>=◌, ◌>>◌, get, put, deref}
use nano_trade.Common.Types.{me_max_num_clients, me_max_order_ids}
use nano_trade.Common.MemPool.{allocate, deallocate}
use nano_trade.Exchange.Book.{
  MeOrder, MeOrdersAtPrice, Book, load_level, load_order, set_prev_order, set_next_order,
  set_first_me_order,
}
use nano_trade.Exchange.Book.Levels.{
  get_orders_at_price, add_orders_at_price, remove_orders_at_price,
}

-- `cid_oid_to_order_.at(client_id).at(client_order_id) = v`
unfoldable pub set_client_order : ℕ → ℕ → Option ℕ → Book (Unit {0})
set_client_order client_id client_order_id v =
    if ltb client_id me_max_num_clients && ltb client_order_id me_max_order_ids
    then (do
      b ← get
      put (record b {
        cid_oid_to_order =
            update b.cid_oid_to_order client_id
              (update (b.cid_oid_to_order client_id) client_order_id v);
      }))
    else abort out_of_range

unfoldable pub allocate_level : MeOrdersAtPrice → Book ℕ
allocate_level level b = elim (allocate b.orders_at_price_pool level) [
  | ok (l, pool) ↦ ok (l, record b { orders_at_price_pool = pool })
  | fault e ↦ fault e
]

unfoldable pub allocate_order : MeOrder → Book ℕ
allocate_order order b = elim (allocate b.order_pool order) [
  | ok (o, pool) ↦ ok (o, record b { order_pool = pool })
  | fault e ↦ fault e
]

unfoldable pub free_order : ℕ → Book (Unit {0})
free_order o b = elim (deallocate b.order_pool o) [
  | ok pool ↦ ok (tt, record b { order_pool = pool })
  | fault e ↦ fault e
]

-- The order goes to the end of the ring that starts at `first`.
unfoldable pub append_order : (first o : ℕ) → Book (Unit {0})
append_order first o = do
  head ← load_order first
  last ← deref head.prev_order
  set_next_order last (some o)
  head' ← load_order first
  set_prev_order o head'.prev_order
  set_next_order o (some first)
  set_prev_order first (some o)

unfoldable pub add_order : ℕ → Book (Unit {0})
add_order o = do
  order ← load_order o
  found ← get_orders_at_price order.price
  elim found [
    | none ↦ (do
      set_prev_order o (some o)
      set_next_order o (some o)
      new ← allocate_level (record {
        side = order.side;
        price = order.price;
        first_me_order = some o;
        prev_entry = none;
        next_entry = none;
      })
      add_orders_at_price new)
    | some l ↦ (do level ← load_level l; first ← deref level.first_me_order; append_order first o)
  ]
  set_client_order order.client_id order.client_order_id (some o)

-- An order among others leaves the ring of its level.
unfoldable pub unlink_order : Option ℕ → ℕ → Book (Unit {0})
unlink_order orders_at_price o = do
  order ← load_order o
  before ← deref order.prev_order
  after ← deref order.next_order
  set_next_order before (some after)
  set_prev_order after (some before)
  l ← deref orders_at_price
  level ← load_level l
  if same_ptr level.first_me_order (some o) then set_first_me_order l (some after) else pure tt
  set_next_order o none
  set_prev_order o none

unfoldable pub remove_order : ℕ → Book (Unit {0})
remove_order o = do
  order ← load_order o
  orders_at_price ← get_orders_at_price order.price
  if same_ptr order.prev_order (some o)
      then remove_orders_at_price order.side order.price
      else unlink_order orders_at_price o
  set_client_order order.client_id order.client_order_id none
  free_order o
