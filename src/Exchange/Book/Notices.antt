-- ===== src/Exchange/Book/Notices.antt =====
-- The client responses and market updates that `match`, `add` and `cancel` of `MEOrderBook`
-- (exchange/matcher/me_order_book.cpp) fill in.
use nano_trade.Base.{ℕ, ◌-◌, none}
use nano_trade.Base.Int.{ℤ}
use nano_trade.Common.Types.{Side, order_id_invalid, price_invalid, qty_invalid, priority_invalid}
use nano_trade.Exchange.Messages.{
  MeClientResponse, ClientResponseType, MeMarketUpdate, MarketUpdateType,
}
use nano_trade.Exchange.Book.{MeOrder}

-- The aggressive order: what `match` and `checkForMatch` pass along of it.
pub record Aggressor : Type 0 where
  pub client_id : ℕ
  pub client_order_id : ℕ
  pub ticker_id : ℕ
  pub side : Side
  pub price : ℤ
  pub new_market_order_id : ℕ

abbrev pub aggressor_fill : Aggressor → MeOrder → (fill leaves : ℕ) → MeClientResponse
aggressor_fill a order fill leaves = record {
  type = ClientResponseType.filled;
  client_id = a.client_id;
  ticker_id = a.ticker_id;
  client_order_id = a.client_order_id;
  market_order_id = a.new_market_order_id;
  side = a.side;
  price = order.price;
  exec_qty = fill;
  leaves_qty = leaves;
}

abbrev pub passive_fill : Aggressor → MeOrder → (fill : ℕ) → MeClientResponse
passive_fill a order fill = record {
  type = ClientResponseType.filled;
  client_id = order.client_id;
  ticker_id = a.ticker_id;
  client_order_id = order.client_order_id;
  market_order_id = order.market_order_id;
  side = order.side;
  price = order.price;
  exec_qty = fill;
  leaves_qty = order.qty - fill;
}

abbrev pub trade_update : Aggressor → MeOrder → (fill : ℕ) → MeMarketUpdate
trade_update a order fill = record {
  type = MarketUpdateType.trade;
  order_id = order_id_invalid;
  ticker_id = a.ticker_id;
  side = a.side;
  price = order.price;
  qty = fill;
  priority = priority_invalid;
}

-- The passive order is gone; the message has the quantity that it had before the fill.
abbrev pub gone_update : Aggressor → MeOrder → MeMarketUpdate
gone_update a order = record {
  type = MarketUpdateType.cancel;
  order_id = order.market_order_id;
  ticker_id = a.ticker_id;
  side = order.side;
  price = order.price;
  qty = order.qty;
  priority = priority_invalid;
}

abbrev pub modify_update : Aggressor → MeOrder → (fill : ℕ) → MeMarketUpdate
modify_update a order fill = record {
  type = MarketUpdateType.modify;
  order_id = order.market_order_id;
  ticker_id = a.ticker_id;
  side = order.side;
  price = order.price;
  qty = order.qty - fill;
  priority = order.priority;
}

abbrev pub accepted_response : Aggressor → ℕ → MeClientResponse
accepted_response a qty = record {
  type = ClientResponseType.accepted;
  client_id = a.client_id;
  ticker_id = a.ticker_id;
  client_order_id = a.client_order_id;
  market_order_id = a.new_market_order_id;
  side = a.side;
  price = a.price;
  exec_qty = 0;
  leaves_qty = qty;
}

abbrev pub resting_order : Aggressor → (leaves priority : ℕ) → MeOrder
resting_order a leaves priority = record {
  ticker_id = a.ticker_id;
  client_id = a.client_id;
  client_order_id = a.client_order_id;
  market_order_id = a.new_market_order_id;
  side = a.side;
  price = a.price;
  qty = leaves;
  priority = priority;
  prev_order = none;
  next_order = none;
}

abbrev pub add_update : Aggressor → (leaves priority : ℕ) → MeMarketUpdate
add_update a leaves priority = record {
  type = MarketUpdateType.add;
  order_id = a.new_market_order_id;
  ticker_id = a.ticker_id;
  side = a.side;
  price = a.price;
  qty = leaves;
  priority = priority;
}

abbrev pub rejected_response : (client_id order_id ticker_id : ℕ) → MeClientResponse
rejected_response client_id order_id ticker_id = record {
  type = ClientResponseType.cancel_rejected;
  client_id = client_id;
  ticker_id = ticker_id;
  client_order_id = order_id;
  market_order_id = order_id_invalid;
  side = Side.invalid;
  price = price_invalid;
  exec_qty = qty_invalid;
  leaves_qty = qty_invalid;
}

abbrev pub canceled_response : (client_id order_id ticker_id : ℕ) → MeOrder → MeClientResponse
canceled_response client_id order_id ticker_id order = record {
  type = ClientResponseType.canceled;
  client_id = client_id;
  ticker_id = ticker_id;
  client_order_id = order_id;
  market_order_id = order.market_order_id;
  side = order.side;
  price = order.price;
  exec_qty = qty_invalid;
  leaves_qty = order.qty;
}

abbrev pub cancel_update : ℕ → MeOrder → MeMarketUpdate
cancel_update ticker_id order = record {
  type = MarketUpdateType.cancel;
  order_id = order.market_order_id;
  ticker_id = ticker_id;
  side = order.side;
  price = order.price;
  qty = 0;
  priority = order.priority;
}
