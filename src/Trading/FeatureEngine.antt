-- ===== src/Trading/FeatureEngine.antt =====
-- trading/strategy/feature_engine.h, and the configuration of common/types.h that the strategies read:
-- the fair price of the market and the size of a trade against the quantity that it met.
use nano_trade.Base.{ℕ, ◌+◌, if◌then◌else◌}
use nano_trade.Base.Int.{pos, ◌+ℤ◌, ◌*ℤ◌}
use nano_trade.Base.Double.{Double, div, of_int, nan}
use nano_trade.Common.Types.{is_buy, to_qty}
use nano_trade.Exchange.Messages.{MeMarketUpdate}
use nano_trade.Trading.MarketOrder.{Bbo}
use nano_trade.Trading.RiskManager.{RiskCfg}
use nano_trade.Trading.PositionKeeper.{is_two_sided}

pub record TradeEngineCfg (W : Type 0) : Type 0 where
  pub clip : ℕ
  pub threshold : W
  pub risk_cfg : RiskCfg W

pub record FeatureEngine (W : Type 0) : Type 0 where
  pub mkt_price : W
  pub agg_trade_qty_ratio : W

module _ {W : Type 0} ⦃d : Double W⦄ where
  abbrev pub new_features : FeatureEngine W
  new_features = record { mkt_price = nan; agg_trade_qty_ratio = nan }

  -- The products and the sum of prices are exact: their overflow, which is undefined, is not
  -- modelled. The sum of the quantities is of 32 bits.
  unfoldable pub mkt_price_of : Bbo → W
  mkt_price_of bbo =
      div (of_int (bbo.bid_price *ℤ pos bbo.ask_qty +ℤ bbo.ask_price *ℤ pos bbo.bid_qty))
        (of_int (pos (to_qty (bbo.bid_qty + bbo.ask_qty))))

  unfoldable pub feature_on_order_book_update : FeatureEngine W → Bbo → FeatureEngine W
  feature_on_order_book_update f bbo =
      if is_two_sided bbo then record f { mkt_price = mkt_price_of bbo } else f

  unfoldable pub feature_on_trade_update : FeatureEngine W → MeMarketUpdate → Bbo → FeatureEngine W
  feature_on_trade_update f u bbo =
      if is_two_sided bbo
      then record f {
        agg_trade_qty_ratio =
            div (of_int (pos u.qty))
              (of_int (pos (if is_buy u.side then bbo.ask_qty else bbo.bid_qty)));
      }
      else f
