-- ===== src/Trading/RiskManager/Limits.antt =====
-- What the risk check of an order promises about the order and its fills.
use nano_trade.Base.{ℕ, ◌^◌, ◌≤◌, ◌<◌, ◌≡◌, ◌↔◌, arith, Bool, false}
use nano_trade.Base.Int.{ℤ, pos, negsuc, ◌+ℤ◌, ◌*ℤ◌, ◌≤ℤ◌}
use nano_trade.Common.Types.{Side, side_to_value}
use nano_trade.Trading.RiskManager.{RiskCheckResult, RiskInfo, to_i32, abs, check_pre_trade_risk}

-- The position after `qty` more shares are traded on one side.
abbrev pub traded : ℤ → Side → ℕ → ℤ
traded position side qty = position +ℤ side_to_value side *ℤ pos qty

abbrev pub IsWithin : ℤ → ℕ → Type 0
IsWithin position limit = abs position ≤ℤ pos limit

to_i32-fits : (n : ℕ) → n < 2 ^ 31 → to_i32 n ≡ pos n
to_i32-fits n h = ground arith

module _ {Double : Type 0} (lt : Double → Double → Bool) (r : RiskInfo Double) (side : Side)
    (qty : ℕ) where
  -- When the quantity and the limit fit in 32 bits with their sign, an order is allowed exactly
  -- when it is no larger than the largest order, the position after it, were it filled in whole, is
  -- within the limit, and the profit is not below the largest loss.
  pub check_pre_trade_risk-allowed :
      qty < 2 ^ 31
      → r.risk_cfg.max_position < 2 ^ 31
      → (check_pre_trade_risk lt r side qty ≡ RiskCheckResult.allowed)
        ↔ (qty ≤ r.risk_cfg.max_order_size)
          × IsWithin (traded r.position side qty) r.risk_cfg.max_position
          × (lt r.total_pnl r.risk_cfg.max_loss ≡ false)
  unfolding check_pre_trade_risk
  check_pre_trade_risk-allowed q p =
      rw (to_i32-fits qty q, to_i32-fits r.risk_cfg.max_position p) (ground arith)

-- The signed sum of two numbers of shares, one of which is scaled.
traded-between :
    (position : ℤ) (side : Side) (part qty limit : ℕ)
    → part ≤ qty
    → IsWithin position limit
    → IsWithin (traded position side qty) limit
    → IsWithin (traded position side part) limit
unfolding ◌+ℤ◌ ◌*ℤ◌ side_to_value
traded-between (pos n) Side.buy part qty limit h a b = ground arith
traded-between (pos n) Side.sell part qty limit h a b = ground arith
traded-between (pos n) Side.invalid part qty limit h a b = ground arith
traded-between (pos n) Side.max part qty limit h a b = ground arith
traded-between (negsuc n) Side.buy part qty limit h a b = ground arith
traded-between (negsuc n) Side.sell part qty limit h a b = ground arith
traded-between (negsuc n) Side.invalid part qty limit h a b = ground arith
traded-between (negsuc n) Side.max part qty limit h a b = ground arith

-- When the quantity and the limit fit in 32 bits with their sign, and from a position within the
-- limit, any part of an allowed order may be filled: the position stays within the limit.
pub allowed-IsWithin :
    {Double : Type 0} (lt : Double → Double → Bool) (r : RiskInfo Double) (side : Side)
    (qty part : ℕ)
    → qty < 2 ^ 31
    → r.risk_cfg.max_position < 2 ^ 31
    → check_pre_trade_risk lt r side qty ≡ RiskCheckResult.allowed
    → IsWithin r.position r.risk_cfg.max_position
    → part ≤ qty
    → IsWithin (traded r.position side part) r.risk_cfg.max_position
allowed-IsWithin lt r side qty part q p allowed within h =
    let (_, within_whole, _) = (check_pre_trade_risk-allowed lt r side qty q p).0 allowed in
    traded-between r.position side part qty r.risk_cfg.max_position h within within_whole
