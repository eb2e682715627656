-- ===== src/Trading/MarketOrderBook.antt =====
-- trading/strategy/market_order_book.h and market_order_book.cpp: the book that a trading client
-- builds from the market data. As in the book of the exchange, a pointer is a block's index in its
-- memory pool, and `none` is the null pointer.
pub mod Levels
pub mod Orders
pub mod Updates
pub mod Queues
pub mod Best
pub mod Joins
pub mod Adds
pub mod Starts
pub mod Sample
mod Tests
use nano_trade.Base.{ℕ, Option, none, some, List, [], ◌∷◌, ◌++◌, update, if◌then◌else◌}
use nano_trade.Base.Int.{ℤ}
use nano_trade.Base.Outcome.{ok, M}
use nano_trade.Common.Types.{Side, is_buy, me_max_price_levels, me_max_order_ids}
use nano_trade.Common.MemPool.{MemPool}
use nano_trade.Common.MemPool
use nano_trade.Exchange.Messages.{MeMarketUpdate}
use nano_trade.Trading.MarketOrder.{
  MarketOrder, MarketOrdersAtPrice, Bbo, no_order, no_level, no_bbo,
}

-- What the book tells its trade engine, with what `getBBO` gives at that moment.
pub data Notice : Type 0 where
  order_book_update : (ticker_id : ℕ) → ℤ → Side → Bbo → Notice
  trade_update : MeMarketUpdate → Bbo → Notice

-- `notices` stands for the calls of `trade_engine_`, in order.
pub record MarketOrderBook : Type 0 where
  pub ticker_id : ℕ
  pub oid_to_order : ℕ → Option ℕ
  pub orders_at_price_pool : MemPool MarketOrdersAtPrice
  pub bids_by_price : Option ℕ
  pub asks_by_price : Option ℕ
  pub price_orders_at_price : ℕ → Option ℕ
  pub order_pool : MemPool MarketOrder
  pub bbo : Bbo
  pub base_price : ℤ
  pub notices : List Notice

-- The constructor. The two arrays have no initialiser; they hold null pointers here.
unfoldable pub init : ℕ → ℤ → MarketOrderBook
unfolding MemPool.init
init ticker_id base_price = record {
  ticker_id = ticker_id;
  oid_to_order = λ _. none;
  orders_at_price_pool = MemPool.init no_level me_max_price_levels;
  bids_by_price = none;
  asks_by_price = none;
  price_orders_at_price = λ _. none;
  order_pool = MemPool.init no_order me_max_order_ids;
  bbo = no_bbo;
  base_price = base_price;
  notices = [];
}

abbrev pub Book : Type 0 → Type 0
Book A = M MarketOrderBook A

-- A write through a pointer into a pool; the block stays free or in use.
abbrev pub write_block : {T : Type 0} → MemPool T → ℕ → T → MemPool T
write_block p i t = record p {
  store = update p.store i (record { object = t; is_free = (p.store i).is_free });
}

abbrev pub Orders : Type 0
Orders = MemPool MarketOrder

abbrev pub Levels : Type 0
Levels = MemPool MarketOrdersAtPrice

abbrev pub order : Orders → ℕ → MarketOrder
order p o = (p.store o).object

abbrev pub level : Levels → ℕ → MarketOrdersAtPrice
level p l = (p.store l).object

-- `o->prev_order_ = v` and the like, in the pool.
unfoldable pub put_prev_order : Orders → ℕ → Option ℕ → Orders
put_prev_order p o v = write_block p o (record (order p o) { prev_order = v })

unfoldable pub put_next_order : Orders → ℕ → Option ℕ → Orders
put_next_order p o v = write_block p o (record (order p o) { next_order = v })

unfoldable pub put_qty : Orders → ℕ → ℕ → Orders
put_qty p o v = write_block p o (record (order p o) { qty = v })

unfoldable pub put_prev_entry : Levels → ℕ → Option ℕ → Levels
put_prev_entry p l v = write_block p l (record (level p l) { prev_entry = v })

unfoldable pub put_next_entry : Levels → ℕ → Option ℕ → Levels
put_next_entry p l v = write_block p l (record (level p l) { next_entry = v })

unfoldable pub put_first_mkt_order : Levels → ℕ → Option ℕ → Levels
put_first_mkt_order p l v = write_block p l (record (level p l) { first_mkt_order = v })

-- The same writes as steps of a method.
abbrev pub set_prev_order : ℕ → Option ℕ → Book (Unit {0})
set_prev_order o v b = ok (tt, record b { order_pool = put_prev_order b.order_pool o v })

abbrev pub set_next_order : ℕ → Option ℕ → Book (Unit {0})
set_next_order o v b = ok (tt, record b { order_pool = put_next_order b.order_pool o v })

abbrev pub set_qty : ℕ → ℕ → Book (Unit {0})
set_qty o v b = ok (tt, record b { order_pool = put_qty b.order_pool o v })

abbrev pub set_prev_entry : ℕ → Option ℕ → Book (Unit {0})
set_prev_entry l v b =
    ok (tt, record b { orders_at_price_pool = put_prev_entry b.orders_at_price_pool l v })

abbrev pub set_next_entry : ℕ → Option ℕ → Book (Unit {0})
set_next_entry l v b =
    ok (tt, record b { orders_at_price_pool = put_next_entry b.orders_at_price_pool l v })

abbrev pub set_first_mkt_order : ℕ → Option ℕ → Book (Unit {0})
set_first_mkt_order l v b =
    ok (tt, record b { orders_at_price_pool = put_first_mkt_order b.orders_at_price_pool l v })

abbrev pub order_at : MarketOrderBook → ℕ → MarketOrder
order_at b = order b.order_pool

abbrev pub level_at : MarketOrderBook → ℕ → MarketOrdersAtPrice
level_at b = level b.orders_at_price_pool

-- `*o` and `*l`
abbrev pub load_order : ℕ → Book MarketOrder
load_order o b = ok (order_at b o, b)

abbrev pub load_level : ℕ → Book MarketOrdersAtPrice
load_level l b = ok (level_at b l, b)

-- `side == Side::BUY ? bids_by_price_ : asks_by_price_`
abbrev pub best_by_price : MarketOrderBook → Side → Option ℕ
best_by_price b side = if is_buy side then b.bids_by_price else b.asks_by_price

abbrev pub set_best_by_price : Side → Option ℕ → Book (Unit {0})
set_best_by_price side v b =
    ok (tt, if is_buy side then record b { bids_by_price = v } else record b { asks_by_price = v })

-- The calls of `trade_engine_`.
abbrev pub notify : Notice → Book (Unit {0})
notify n b = ok (tt, record b { notices = b.notices ++ n ∷ [] })
