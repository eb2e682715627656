-- ===== src/Exchange/Book/Matching.antt =====
-- Matching in `MEOrderBook` (exchange/matcher/me_order_book.cpp): `match`, `checkForMatch`, `add` and
-- `cancel`.
use nano_trade.Base.{
  ℕ, zero, suc, ◌+◌, ◌-◌, min, Bool, ◌||◌, ◌==◌, ltb, if◌then◌else◌, Option, none, some,
}
use nano_trade.Base.Int.{ℤ, ltb_ℤ}
use nano_trade.Base.Outcome.{out_of_range, out_of_fuel, pure, abort, ◌>>=◌, ◌>>◌, get, put, deref}
use nano_trade.Common.Types.{
  Side, is_buy, is_sell, me_max_num_clients, me_max_order_ids, to_qty, to_u64,
}
use nano_trade.Exchange.Book.{
  MeOrderBook, to_client, to_market, Book, load_level, load_order, set_qty, send,
}
use nano_trade.Exchange.Book.Levels.{get_next_priority}
use nano_trade.Exchange.Book.Orders.{allocate_order, add_order, remove_order}
use nano_trade.Exchange.Book.Notices.{
  Aggressor, aggressor_fill, passive_fill, trade_update, gone_update, modify_update,
  accepted_response, resting_order, add_update, rejected_response, canceled_response, cancel_update,
}

-- `match`: one fill against the passive order `o`; the result is what the aggressor has left.
unfoldable pub match : Aggressor → ℕ → ℕ → Book ℕ
match a o leaves_qty = do
  order ← load_order o
  let fill = min leaves_qty order.qty
  let leaves = leaves_qty - fill
  set_qty o (order.qty - fill)
  send (to_client (aggressor_fill a order fill leaves))
  send (to_client (passive_fill a order fill))
  send (to_market (trade_update a order fill))
  if (order.qty - fill) == 0
      then (do send (to_market (gone_update a order)); remove_order o)
      else send (to_market (modify_update a order fill))
  pure leaves

-- `price < ask_itr->price_` for a buyer, `price > bid_itr->price_` for a seller.
abbrev pub does_not_reach : Side → (price passive_price : ℤ) → Bool
does_not_reach side price passive_price =
    if is_buy side then ltb_ℤ price passive_price else ltb_ℤ passive_price price

-- `asks_by_price_` for a buyer, `bids_by_price_` for a seller.
abbrev pub opposite_best : MeOrderBook → Side → Option ℕ
opposite_best b side = if is_buy side then b.asks_by_price else b.bids_by_price

-- The two `while` loops of `checkForMatch`, which differ in the side alone. Every round but the last
-- takes an order out of the book.
unfoldable pub match_loop : ℕ → Aggressor → ℕ → Book ℕ
match_loop zero a leaves_qty = abort out_of_fuel
match_loop (suc fuel) a leaves_qty = do
  b ← get
  if leaves_qty == 0 then pure 0 else (elim (opposite_best b a.side) [
    | none ↦ pure leaves_qty
    | some l ↦ (do
      level ← load_level l
      first ← deref level.first_me_order
      order ← load_order first
      if does_not_reach a.side a.price order.price
          then pure leaves_qty
          else (do leaves ← match a first leaves_qty; match_loop fuel a leaves))
  ])

-- `checkForMatch` takes `new_market_order_id` as a `Qty`, so the number is cut to 32 bits.
unfoldable pub check_for_match : Aggressor → ℕ → Book ℕ
check_for_match a qty = do
  b ← get
  if is_buy a.side || is_sell a.side
      then match_loop (b.order_pool.size + 1)
          (record a { new_market_order_id = to_qty a.new_market_order_id }) qty
      else pure qty

-- `next_market_order_id_++`
unfoldable pub generate_new_market_order_id : Book ℕ
generate_new_market_order_id = do
  b ← get
  put (record b { next_market_order_id = to_u64 (b.next_market_order_id + 1) })
  pure b.next_market_order_id

-- What is left of an order rests in the book.
unfoldable pub rest_order : Aggressor → ℕ → Book (Unit {0})
rest_order a leaves = do
  priority ← get_next_priority a.price
  o ← allocate_order (resting_order a leaves priority)
  add_order o
  send (to_market (add_update a leaves priority))

unfoldable pub add :
    (client_id client_order_id ticker_id : ℕ) → Side → ℤ → (qty : ℕ) → Book (Unit {0})
add client_id client_order_id ticker_id side price qty = do
  id ← generate_new_market_order_id
  let a : Aggressor = record {
    client_id = client_id;
    client_order_id = client_order_id;
    ticker_id = ticker_id;
    side = side;
    price = price;
    new_market_order_id = id;
  }
  send (to_client (accepted_response a qty))
  leaves ← check_for_match a qty
  if leaves == 0 then pure tt else rest_order a leaves

-- `client_id < cid_oid_to_order_.size()`, and the entry of the order; `at(order_id)` is not guarded.
unfoldable pub find_client_order : (client_id order_id : ℕ) → Book (Option ℕ)
find_client_order client_id order_id = do
  b ← get
  if ltb client_id me_max_num_clients
      then (if ltb order_id me_max_order_ids
          then pure (b.cid_oid_to_order client_id order_id)
          else abort out_of_range)
      else pure none

unfoldable pub cancel : (client_id order_id ticker_id : ℕ) → Book (Unit {0})
cancel client_id order_id ticker_id = do
  exchange_order ← find_client_order client_id order_id
  elim exchange_order [
    | none ↦ send (to_client (rejected_response client_id order_id ticker_id))
    | some o ↦ (do
      order ← load_order o
      remove_order o
      send (to_market (cancel_update ticker_id order))
      send (to_client (canceled_response client_id order_id ticker_id order)))
  ]
