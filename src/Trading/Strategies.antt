-- ===== src/Trading/Strategies.antt =====
-- trading/strategy/market_maker.h and liquidity_taker.h: the two trading algorithms, each of which
-- asks the order manager for orders.
pub mod Requests
pub mod Quotes
mod Tests
use nano_trade.Base.{ℕ, ltb, Bool, ◌&&◌, not, if◌then◌else◌}
use nano_trade.Base.Int.{ℤ, pos, ◌+ℤ◌, ◌-ℤ◌}
use nano_trade.Base.Double.{Double, sub, of_int, le, eq, nan}
use nano_trade.Base.Outcome.{pure, abort, out_of_range}
use nano_trade.Common.Types.{is_buy, price_invalid, me_max_tickers}
use nano_trade.Exchange.Messages.{MeMarketUpdate}
use nano_trade.Trading.MarketOrder.{Bbo}
use nano_trade.Trading.OrderManager.{Manager, move_orders}
use nano_trade.Trading.PositionKeeper.{is_two_sided}
use nano_trade.Trading.FeatureEngine.{FeatureEngine, TradeEngineCfg}

-- The order of the taker, on the side of the trade.
unfoldable pub taker_orders : MeMarketUpdate → Bbo → (clip : ℕ) → Manager (Unit {0})
taker_orders u bbo clip =
    if is_buy u.side
    then move_orders u.ticker_id bbo.ask_price price_invalid clip
    else move_orders u.ticker_id price_invalid bbo.bid_price clip

module _ {W : Type 0} ⦃d : Double W⦄ where
  -- A tick away from the best bid, unless the fair price is far enough from it.
  unfoldable pub maker_bid : Bbo → (fair_price threshold : W) → ℤ
  maker_bid bbo fair_price threshold =
      bbo.bid_price -ℤ pos (if le threshold (sub fair_price (of_int bbo.bid_price)) then 0 else 1)

  unfoldable pub maker_ask : Bbo → (fair_price threshold : W) → ℤ
  maker_ask bbo fair_price threshold =
      bbo.ask_price +ℤ pos (if le threshold (sub (of_int bbo.ask_price) fair_price) then 0 else 1)

  -- `MarketMaker::onOrderBookUpdate`
  unfoldable pub maker_on_order_book_update :
      (ℕ → TradeEngineCfg W) → FeatureEngine W → (ticker_id : ℕ) → Bbo → Manager (Unit {0})
  unfolding maker_bid maker_ask
  maker_on_order_book_update ticker_cfg features t bbo =
      let fair_price = features.mkt_price in
      let cfg = ticker_cfg t in
      if is_two_sided bbo && not (eq fair_price nan)
      then if ltb t me_max_tickers
        then move_orders t (maker_bid bbo fair_price cfg.threshold)
            (maker_ask bbo fair_price cfg.threshold) cfg.clip
        else abort out_of_range
      else pure tt

  -- `LiquidityTaker::onTradeUpdate`
  unfoldable pub taker_on_trade_update :
      (ℕ → TradeEngineCfg W) → FeatureEngine W → MeMarketUpdate → Bbo → Manager (Unit {0})
  taker_on_trade_update ticker_cfg features u bbo =
      let ratio = features.agg_trade_qty_ratio in
      let cfg = ticker_cfg u.ticker_id in
      if is_two_sided bbo && not (eq ratio nan)
      then if ltb u.ticker_id me_max_tickers
        then if le cfg.threshold ratio then taker_orders u bbo cfg.clip else pure tt
        else abort out_of_range
      else pure tt
