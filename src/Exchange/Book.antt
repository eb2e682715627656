-- ===== src/Exchange/Book.antt =====
-- The state of `MEOrderBook` (exchange/matcher/me_order_book.h) and the reads and writes through its
-- pointers. The nodes (exchange/matcher/me_order.h) live in the two memory pools; a pointer is a
-- block's index, and `none` is the null pointer.
pub mod Levels
pub mod Orders
pub mod Notices
pub mod Matching
pub mod Links
pub mod Fifo
pub mod Queues
pub mod Removal
pub mod Takes
pub mod Frames
pub mod Sweep
pub mod Fills
pub mod Priority
pub mod LevelRing
pub mod Walk
pub mod Ladder
pub mod Placing
pub mod Vacating
pub mod Vacated
pub mod Leveling
pub mod Lone
pub mod Fresh
pub mod Opening
pub mod Cancels
pub mod Resting
mod Tests
mod LevelTests
use nano_trade.Base.{ℕ, Option, none, some, List, [], ◌∷◌, ◌++◌, update, if◌then◌else◌}
use nano_trade.Base.Int.{ℤ}
use nano_trade.Base.Outcome.{ok, M}
use nano_trade.Common.Types.{
  Side, is_buy, ticker_id_invalid, client_id_invalid, order_id_invalid, price_invalid, qty_invalid,
  priority_invalid, me_max_price_levels, me_max_order_ids,
}
use nano_trade.Common.MemPool.{MemPool}
use nano_trade.Common.MemPool
use nano_trade.Exchange.Messages.{MeClientResponse, MeMarketUpdate}

pub record MeOrder : Type 0 where
  pub ticker_id : ℕ
  pub client_id : ℕ
  pub client_order_id : ℕ
  pub market_order_id : ℕ
  pub side : Side
  pub price : ℤ
  pub qty : ℕ
  pub priority : ℕ
  pub prev_order : Option ℕ
  pub next_order : Option ℕ

-- `MEOrder()`
abbrev pub no_order : MeOrder
no_order = record {
  ticker_id = ticker_id_invalid;
  client_id = client_id_invalid;
  client_order_id = order_id_invalid;
  market_order_id = order_id_invalid;
  side = Side.invalid;
  price = price_invalid;
  qty = qty_invalid;
  priority = priority_invalid;
  prev_order = none;
  next_order = none;
}

pub record MeOrdersAtPrice : Type 0 where
  pub side : Side
  pub price : ℤ
  pub first_me_order : Option ℕ
  pub prev_entry : Option ℕ
  pub next_entry : Option ℕ

abbrev pub no_level : MeOrdersAtPrice
no_level = record {
  side = Side.invalid;
  price = price_invalid;
  first_me_order = none;
  prev_entry = none;
  next_entry = none;
}

-- What the book hands to its matching engine.
pub data Message : Type 0 where
  to_client : MeClientResponse → Message
  to_market : MeMarketUpdate → Message

-- `sent` stands for the calls of `matching_engine_`, in order.
pub record MeOrderBook : Type 0 where
  pub ticker_id : ℕ
  pub cid_oid_to_order : ℕ → ℕ → Option ℕ
  pub orders_at_price_pool : MemPool MeOrdersAtPrice
  pub bids_by_price : Option ℕ
  pub asks_by_price : Option ℕ
  pub price_orders_at_price : ℕ → Option ℕ
  pub order_pool : MemPool MeOrder
  pub next_market_order_id : ℕ
  pub base_price : ℤ
  pub sent : List Message

-- The constructor. The arrays of pointers, which it does not set, are null here.
unfoldable pub init : ℕ → ℤ → MeOrderBook
unfolding MemPool.init
init ticker_id base_price = record {
  ticker_id = ticker_id;
  cid_oid_to_order = λ _ _. none;
  orders_at_price_pool = MemPool.init no_level me_max_price_levels;
  bids_by_price = none;
  asks_by_price = none;
  price_orders_at_price = λ _. none;
  order_pool = MemPool.init no_order me_max_order_ids;
  next_market_order_id = 1;
  base_price = base_price;
  sent = [];
}

abbrev pub Book : Type 0 → Type 0
Book A = M MeOrderBook A

-- A write through a pointer into a pool; the block stays free or in use.
abbrev pub write_block : {T : Type 0} → MemPool T → ℕ → T → MemPool T
write_block p i t = record p {
  store = update p.store i (record { object = t; is_free = (p.store i).is_free });
}

abbrev pub Orders : Type 0
Orders = MemPool MeOrder

abbrev pub Levels : Type 0
Levels = MemPool MeOrdersAtPrice

abbrev pub order : Orders → ℕ → MeOrder
order p o = (p.store o).object

abbrev pub level : Levels → ℕ → MeOrdersAtPrice
level p l = (p.store l).object

-- `o->prev_order_ = v` and the like, in the pool.
unfoldable pub put_prev_order : Orders → ℕ → Option ℕ → Orders
put_prev_order p o v = write_block p o (record (order p o) { prev_order = v })

unfoldable pub put_next_order : Orders → ℕ → Option ℕ → Orders
put_next_order p o v = write_block p o (record (order p o) { next_order = v })

unfoldable pub put_qty : Orders → ℕ → ℕ → Orders
put_qty p o v = write_block p o (record (order p o) { qty = v })

unfoldable pub put_prev_entry : Levels → ℕ → Option ℕ → Levels
put_prev_entry p l v = write_block p l (record (level p l) { prev_entry = v })

unfoldable pub put_next_entry : Levels → ℕ → Option ℕ → Levels
put_next_entry p l v = write_block p l (record (level p l) { next_entry = v })

unfoldable pub put_first_me_order : Levels → ℕ → Option ℕ → Levels
put_first_me_order p l v = write_block p l (record (level p l) { first_me_order = v })

-- The same writes as steps of a method.
abbrev pub set_prev_order : ℕ → Option ℕ → Book (Unit {0})
set_prev_order o v b = ok (tt, record b { order_pool = put_prev_order b.order_pool o v })

abbrev pub set_next_order : ℕ → Option ℕ → Book (Unit {0})
set_next_order o v b = ok (tt, record b { order_pool = put_next_order b.order_pool o v })

abbrev pub set_qty : ℕ → ℕ → Book (Unit {0})
set_qty o v b = ok (tt, record b { order_pool = put_qty b.order_pool o v })

abbrev pub set_prev_entry : ℕ → Option ℕ → Book (Unit {0})
set_prev_entry l v b =
    ok (tt, record b { orders_at_price_pool = put_prev_entry b.orders_at_price_pool l v })

abbrev pub set_next_entry : ℕ → Option ℕ → Book (Unit {0})
set_next_entry l v b =
    ok (tt, record b { orders_at_price_pool = put_next_entry b.orders_at_price_pool l v })

abbrev pub set_first_me_order : ℕ → Option ℕ → Book (Unit {0})
set_first_me_order l v b =
    ok (tt, record b { orders_at_price_pool = put_first_me_order b.orders_at_price_pool l v })

abbrev pub order_at : MeOrderBook → ℕ → MeOrder
order_at b = order b.order_pool

abbrev pub level_at : MeOrderBook → ℕ → MeOrdersAtPrice
level_at b = level b.orders_at_price_pool

-- `*o` and `*l`
abbrev pub load_order : ℕ → Book MeOrder
load_order o b = ok (order_at b o, b)

abbrev pub load_level : ℕ → Book MeOrdersAtPrice
load_level l b = ok (level_at b l, b)

-- `side == Side::BUY ? bids_by_price_ : asks_by_price_`
abbrev pub best_by_price : MeOrderBook → Side → Option ℕ
best_by_price b side = if is_buy side then b.bids_by_price else b.asks_by_price

abbrev pub set_best_by_price : Side → Option ℕ → Book (Unit {0})
set_best_by_price side v b =
    ok (tt, if is_buy side then record b { bids_by_price = v } else record b { asks_by_price = v })

-- `matching_engine_->sendClientResponse` and `matching_engine_->sendMarketUpdate`
abbrev pub send : Message → Book (Unit {0})
send m b = ok (tt, record b { sent = b.sent ++ m ∷ [] })
