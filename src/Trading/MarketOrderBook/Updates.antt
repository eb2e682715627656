-- ===== src/Trading/MarketOrderBook/Updates.antt =====
-- `updateBBO` and `onMarketUpdate` of `MarketOrderBook`.
use nano_trade.Base.{
  ℕ, zero, suc, ◌+◌, Bool, true, false, not, ◌&&◌, ◌==◌, ltb, if◌then◌else◌, Option, none, some,
}
use nano_trade.Base.Int.{ℤ, ltb_ℤ}
use nano_trade.Base.Outcome.{
  Outcome, ok, fault, null_deref, out_of_range, out_of_fuel, and_then, pure, abort, ◌>>=◌, ◌>>◌,
  get, put, deref,
}
use nano_trade.Common.Types.{is_buy, is_sell, to_qty, price_invalid, qty_invalid, me_max_order_ids}
use nano_trade.Exchange.Messages.{MeMarketUpdate, MarketUpdateType}
use nano_trade.Trading.MarketOrder.{MarketOrder}
use nano_trade.Trading.MarketOrderBook.{
  MarketOrderBook, Book, Notice, Orders, order, order_at, level_at, load_level, set_qty, notify,
}
use nano_trade.Trading.MarketOrderBook.Levels.{free_level}
use nano_trade.Trading.MarketOrderBook.Orders.{allocate_order, free_order, add_order, remove_order}

-- The loop of `updateBBO`: the quantities from the order at `cursor` on, round to `first`. The fuel
-- bounds the orders passed.
unfoldable pub sum_qty : (fuel : ℕ) → Orders → (first : ℕ) (cursor : Option ℕ) (qty : ℕ) → Outcome ℕ
sum_qty zero p first cursor qty = fault out_of_fuel
sum_qty (suc fuel) p first none qty = fault null_deref
sum_qty (suc fuel) p first (some o) qty = elim (o == first) [
  | true ↦ ok qty
  | false ↦ sum_qty fuel p first (order p o).next_order (to_qty (qty + (order p o).qty))
]

-- The price and the quantity of one side of the BBO, from its best level.
unfoldable pub best_of : MarketOrderBook → Option ℕ → Outcome (ℤ × ℕ)
unfolding sum_qty
best_of b none = ok (price_invalid, qty_invalid)
best_of b (some l) = elim (level_at b l).first_mkt_order [
  | none ↦ fault null_deref
  | some first ↦
      and_then
        (sum_qty (b.order_pool.size + 1) b.order_pool first (order_at b first).next_order
          (order_at b first).qty)
        (λ qty. ok ((level_at b l).price, qty))
]

unfoldable pub update_bid : Book (Unit {0})
unfolding best_of
update_bid b =
    and_then (best_of b b.bids_by_price) (λ (price, qty).
      ok (tt, record b { bbo = record b.bbo { bid_price = price; bid_qty = qty } }))

unfoldable pub update_ask : Book (Unit {0})
unfolding best_of
update_ask b =
    and_then (best_of b b.asks_by_price) (λ (price, qty).
      ok (tt, record b { bbo = record b.bbo { ask_price = price; ask_qty = qty } }))

unfoldable pub update_bbo : (update_bid update_ask : Bool) → Book (Unit {0})
unfolding update_bid update_ask
update_bbo bid ask = do if bid then update_bid else pure tt; if ask then update_ask else pure tt

-- `oid_to_order_.at(order_id)`
unfoldable pub find_order : ℕ → Book (Option ℕ)
find_order order_id b =
    if ltb order_id me_max_order_ids then ok (b.oid_to_order order_id, b) else fault out_of_range

-- Whether the update reaches the best price of its side, before it is applied.
unfoldable pub bid_updated : MarketOrderBook → MeMarketUpdate → Bool
bid_updated b u = elim b.bids_by_price [
  | none ↦ false
  | some l ↦ is_buy u.side && not (ltb_ℤ u.price (level_at b l).price)
]

unfoldable pub ask_updated : MarketOrderBook → MeMarketUpdate → Bool
ask_updated b u = elim b.asks_by_price [
  | none ↦ false
  | some l ↦ is_sell u.side && not (ltb_ℤ (level_at b l).price u.price)
]

-- The first loop of CLEAR, over the first `n` entries of `oid_to_order_` that are left, from `i` on.
unfoldable pub free_orders : (n i : ℕ) → Book (Unit {0})
free_orders zero i = pure tt
free_orders (suc n) i = do
  b ← get
  elim (b.oid_to_order i) [ none ↦ pure tt | some o ↦ free_order o ]
  free_orders n (suc i)

-- The loop over the levels of a side, from the one at `cursor` round to the best one.
unfoldable pub free_others : (fuel : ℕ) (best : ℕ) (cursor : Option ℕ) → Book (Unit {0})
free_others zero best cursor = abort out_of_fuel
free_others (suc fuel) best none = abort null_deref
free_others (suc fuel) best (some l) = elim (l == best) [
  | true ↦ pure tt
  | false ↦ (do free_level l; level ← load_level l; free_others fuel best level.next_entry)
]

unfoldable pub free_side : Option ℕ → Book (Unit {0})
unfolding free_others
free_side none = pure tt
free_side (some best) = do
  b ← get
  level ← load_level best
  free_others (b.orders_at_price_pool.size + 1) best level.next_entry
  free_level best

unfoldable pub clear : Book (Unit {0})
unfolding free_orders free_side
clear = do
  free_orders me_max_order_ids 0
  b ← get
  put (record b { oid_to_order = λ _. none })
  free_side b.bids_by_price
  free_side b.asks_by_price
  b' ← get
  put (record b' { bids_by_price = none; asks_by_price = none })

abbrev pub new_order : MeMarketUpdate → MarketOrder
new_order u = record {
  order_id = u.order_id;
  side = u.side;
  price = u.price;
  qty = u.qty;
  priority = u.priority;
  prev_order = none;
  next_order = none;
}

-- The cases of the switch but TRADE.
unfoldable pub apply_update : MeMarketUpdate → Book (Unit {0})
unfolding clear find_order
apply_update u = elim u.type [
  | MarketUpdateType.add ↦ (do o ← allocate_order (new_order u); add_order o)
  | MarketUpdateType.modify ↦ (do found ← find_order u.order_id; o ← deref found; set_qty o u.qty)
  | MarketUpdateType.cancel ↦ (do found ← find_order u.order_id; o ← deref found; remove_order o)
  | MarketUpdateType.clear ↦ clear
  | MarketUpdateType.trade ↦ pure tt
  | MarketUpdateType.invalid ↦ pure tt
  | MarketUpdateType.snapshot_start ↦ pure tt
  | MarketUpdateType.snapshot_end ↦ pure tt
]

abbrev pub is_trade : MarketUpdateType → Bool
is_trade MarketUpdateType.trade = true
is_trade _ = false

unfoldable pub on_market_update : MeMarketUpdate → Book (Unit {0})
unfolding apply_update update_bbo bid_updated ask_updated
on_market_update u = do
  b ← get
  if is_trade u.type then notify (Notice.trade_update u b.bbo) else (do
    apply_update u
    update_bbo (bid_updated b u) (ask_updated b u)
    b' ← get
    notify (Notice.order_book_update u.ticker_id u.price u.side b'.bbo))
