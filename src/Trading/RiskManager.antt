-- ===== src/Trading/RiskManager.antt =====
-- trading/strategy/risk_manager.h and risk_manager.cpp: the checks before an order is sent. The
-- profit is a `double` of the source: its type and its comparison are parameters.
mod Tests
pub mod Limits
use nano_trade.Base.{ℕ, suc, ◌-◌, ◌^◌, Bool, ltb, if◌then◌else◌}
use nano_trade.Base.Int.{ℤ, pos, negsuc, pos_part, neg_part, ltb_ℤ, ◌+ℤ◌, ◌*ℤ◌}
use nano_trade.Base.Outcome.{Outcome, ok, fault, out_of_range}
use nano_trade.Common.Types.{Side, side_to_value, me_max_tickers}

pub data RiskCheckResult : Type 0 where
  invalid order_too_large position_too_large loss_too_large allowed : RiskCheckResult

-- `static_cast<int32_t>` of a 32-bit number.
abbrev pub to_i32 : ℕ → ℤ
to_i32 n = if ltb n (2 ^ 31) then pos n else negsuc (2 ^ 32 - n - 1)

-- `std::abs`
abbrev pub abs : ℤ → ℤ
abs (pos n) = pos n
abs (negsuc n) = pos (suc n)

module _ (Double : Type 0) where
  pub record RiskCfg : Type 0 where
    pub max_order_size : ℕ
    pub max_position : ℕ
    pub max_loss : Double

  -- `position_` and `total_pnl_` are those of the `PositionInfo` that `position_info_` leads to.
  pub record RiskInfo : Type 0 where
    pub position : ℤ
    pub total_pnl : Double
    pub risk_cfg : RiskCfg

module _ {Double : Type 0} (lt : Double → Double → Bool) where
  -- The sum is exact: an overflow of the `int` of the source, which is undefined, is not modelled.
  unfoldable pub check_pre_trade_risk : RiskInfo Double → Side → ℕ → RiskCheckResult
  check_pre_trade_risk r side qty =
      if ltb r.risk_cfg.max_order_size qty
      then RiskCheckResult.order_too_large
      else if ltb_ℤ (to_i32 r.risk_cfg.max_position)
          (abs (r.position +ℤ side_to_value side *ℤ to_i32 qty))
      then RiskCheckResult.position_too_large
      else if lt r.total_pnl r.risk_cfg.max_loss
      then RiskCheckResult.loss_too_large
      else RiskCheckResult.allowed

  -- `RiskManager::checkPreTradeRisk`, over `ticker_risk_.at(ticker_id)`.
  unfoldable pub check_ticker_risk :
      (ℕ → RiskInfo Double) → (ticker_id : ℕ) → Side → ℕ → Outcome RiskCheckResult
  unfolding check_pre_trade_risk
  check_ticker_risk ticker_risk ticker_id side qty =
      if ltb ticker_id me_max_tickers
      then ok (check_pre_trade_risk (ticker_risk ticker_id) side qty)
      else fault out_of_range
