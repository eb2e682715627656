-- ===== src/Backtest/FillSimulator/Tests.antt =====
-- The fills at a concrete order.
use nano_trade.Base.{ℕ, ◌≡◌, ◌≤◌, ◌⊎◌, true, [], ◌∷◌, ◌+◌}
use nano_trade.Base.Int.{pos}
use nano_trade.Common.Types.{Side}
use nano_trade.Exchange.Messages.{
  MeClientRequest, ClientRequestType, MeMarketUpdate, MarketUpdateType,
}
use nano_trade.Trading.MarketOrder.{Bbo}
use nano_trade.Backtest.FillSimulator.{PendingOrder}
use nano_trade.Backtest.FillSimulator.Fills.{passive_run, passive_run-conserves}

abbrev buy : MeClientRequest
buy = record {
  type = ClientRequestType.new;
  client_id = 1;
  ticker_id = 0;
  order_id = 1;
  side = Side.buy;
  price = pos 100;
  qty = 10;
}

abbrev prices : Bbo
prices = record { bid_price = pos 98; ask_price = pos 99; bid_qty = 5; ask_qty = 7 }

-- Four are ahead of the order.
abbrev order : PendingOrder
order = record {
  req = buy;
  bbo_at_submit = prices;
  leaves_qty = 10;
  queue_ahead_qty = 4;
  priority_watermark = 20;
  queue_aware = true;
}

abbrev trade : (qty priority : ℕ) → MeMarketUpdate
trade qty priority = record {
  type = MarketUpdateType.trade;
  order_id = 9;
  ticker_id = 0;
  side = Side.buy;
  price = pos 100;
  qty = qty;
  priority = priority;
}

passive_run-conserves_example :
    let (po, filled) = passive_run order (trade 3 3 ∷ trade 3 4 ∷ trade 30 30 ∷ []) in
    (po.leaves_qty + filled ≡ 10)
    × (po.queue_ahead_qty ≤ 4)
    × ((filled ≡ 0) ⊎ (po.queue_ahead_qty ≡ 0))
passive_run-conserves_example =
    passive_run-conserves (trade 3 3 ∷ trade 3 4 ∷ trade 30 30 ∷ []) order
