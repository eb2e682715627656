-- ===== src/Trading/MarketOrder.antt =====
-- trading/strategy/market_order.h: the orders and price levels of a client's book, and the best bid
-- and offer. A pointer is a block's index in its memory pool, and `none` is the null pointer.
use nano_trade.Base.{ℕ, Option, none}
use nano_trade.Base.Int.{ℤ}
use nano_trade.Common.Types.{Side, order_id_invalid, price_invalid, qty_invalid, priority_invalid}

pub record MarketOrder : Type 0 where
  pub order_id : ℕ
  pub side : Side
  pub price : ℤ
  pub qty : ℕ
  pub priority : ℕ
  pub prev_order : Option ℕ
  pub next_order : Option ℕ

-- `MarketOrder()`
abbrev pub no_order : MarketOrder
no_order = record {
  order_id = order_id_invalid;
  side = Side.invalid;
  price = price_invalid;
  qty = qty_invalid;
  priority = priority_invalid;
  prev_order = none;
  next_order = none;
}

pub record MarketOrdersAtPrice : Type 0 where
  pub side : Side
  pub price : ℤ
  pub first_mkt_order : Option ℕ
  pub prev_entry : Option ℕ
  pub next_entry : Option ℕ

-- `MarketOrdersAtPrice()`
abbrev pub no_level : MarketOrdersAtPrice
no_level = record {
  side = Side.invalid;
  price = price_invalid;
  first_mkt_order = none;
  prev_entry = none;
  next_entry = none;
}

pub record Bbo : Type 0 where
  pub bid_price : ℤ
  pub ask_price : ℤ
  pub bid_qty : ℕ
  pub ask_qty : ℕ

-- `BBO()`
abbrev pub no_bbo : Bbo
no_bbo = record {
  bid_price = price_invalid;
  ask_price = price_invalid;
  bid_qty = qty_invalid;
  ask_qty = qty_invalid;
}
