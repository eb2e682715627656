-- ===== src/Trading/Strategies/Tests.antt =====
-- The algorithms at concrete prices.
use nano_trade.Base.{ℕ, ◌≡◌, arith, some}
use nano_trade.Base.Int.{pos, negsuc}
use nano_trade.Base.Double.{Double, Hundredths, hundredths}
use nano_trade.Base.Outcome.{ok}
use nano_trade.Common.Types.{Side}
use nano_trade.Exchange.Messages.{MeMarketUpdate, MarketUpdateType}
use nano_trade.Trading.MarketOrder.{Bbo}
use nano_trade.Trading.RiskManager.{RiskCheckResult}
use nano_trade.Trading.OrderManager.{OrderManager, init}
use nano_trade.Trading.FeatureEngine.{FeatureEngine, TradeEngineCfg}
use nano_trade.Trading.Strategies.{maker_on_order_book_update, taker_on_trade_update}
use nano_trade.Trading.Strategies.Requests.{Sends}
use nano_trade.Trading.Strategies.Quotes.{
  IsPassive, IsFollowing, maker_on_order_book_update-IsPassive, taker_on_trade_update-IsFollowing,
}

instance abbrev in_hundredths : Double Hundredths
in_hundredths = hundredths

abbrev cfg : ℕ → TradeEngineCfg Hundredths
cfg t = record {
  clip = 10;
  threshold = some (pos 60);
  risk_cfg = record { max_order_size = 20; max_position = 50; max_loss = some (negsuc 99) };
}

abbrev features : FeatureEngine Hundredths
features = record { mkt_price = some (pos 10040); agg_trade_qty_ratio = some (pos 80) }

abbrev bbo : Bbo
bbo = record { bid_price = pos 100; ask_price = pos 101; bid_qty = 30; ask_qty = 20 }

abbrev manager : OrderManager
manager = init 1 (λ t side qty. RiskCheckResult.allowed)

abbrev trade : MeMarketUpdate
trade = record {
  type = MarketUpdateType.trade;
  order_id = 5;
  ticker_id = 2;
  side = Side.sell;
  price = pos 100;
  qty = 24;
  priority = 1;
}

maker_on_order_book_update-IsPassive_example :
    (n : OrderManager) × (maker_on_order_book_update cfg features 2 bbo manager ≡ ok (tt, n))
    × Sends manager n (IsPassive bbo)
maker_on_order_book_update-IsPassive_example =
    maker_on_order_book_update-IsPassive cfg features 2 bbo manager (omega arith)

taker_on_trade_update-IsFollowing_example :
    (n : OrderManager) × (taker_on_trade_update cfg features trade bbo manager ≡ ok (tt, n))
    × Sends manager n (IsFollowing trade bbo)
taker_on_trade_update-IsFollowing_example =
    taker_on_trade_update-IsFollowing cfg features trade bbo manager (omega arith)
