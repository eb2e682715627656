-- ===== src/Trading/RiskManager/Tests.antt =====
-- The risk check's theorems at concrete limits; the profit is a number of ticks.
use nano_trade.Base.{◌≡◌, ◌≤◌, ◌↔◌, arith, false}
use nano_trade.Base.Int.{ℤ, pos, negsuc, ltb_ℤ}
use nano_trade.Common.Types.{Side}
use nano_trade.Trading.RiskManager.{RiskCheckResult, RiskInfo, check_pre_trade_risk}
use nano_trade.Trading.RiskManager.Limits.{traded, IsWithin, check_pre_trade_risk-allowed}

-- Short 40, at most 50 on either side, at most 20 in one order.
abbrev short : RiskInfo ℤ
short = record {
  position = negsuc 39;
  total_pnl = pos 0;
  risk_cfg = record { max_order_size = 20; max_position = 50; max_loss = negsuc 99 };
}

check_pre_trade_risk-allowed_example :
    (check_pre_trade_risk ltb_ℤ short Side.sell 10 ≡ RiskCheckResult.allowed)
    ↔ (10 ≤ 20)
      × IsWithin (traded (negsuc 39) Side.sell 10) 50
      × (ltb_ℤ (pos 0) (negsuc 99) ≡ false)
check_pre_trade_risk-allowed_example =
    check_pre_trade_risk-allowed ltb_ℤ short Side.sell 10 (omega arith) (omega arith)
