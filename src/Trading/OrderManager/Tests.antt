-- ===== src/Trading/OrderManager/Tests.antt =====
-- The order manager's theorems at a concrete run.
use nano_trade.Base.{ℕ, ◌≡◌, refl, arith, List, [], ◌∷◌}
use nano_trade.Base.Int.{pos}
use nano_trade.Base.Lists.{Distinct}
use nano_trade.Base.Outcome.{ok}
use nano_trade.Common.Types.{Side, side_to_index}
use nano_trade.Exchange.Messages.{MeClientResponse, ClientResponseType}
use nano_trade.Trading.OrderManager.{OrderManager, init, pending_order}
use nano_trade.Trading.OrderManager.Pending.{Event, run, IsHeld, run-IsHeld}
use nano_trade.Trading.OrderManager.Ids.{new_ids, run-Distinct}
use nano_trade.Trading.RiskManager.{RiskCheckResult}

abbrev manager : OrderManager
manager = record {
  client_id = 3;
  risk = λ _ _ _. RiskCheckResult.allowed;
  ticker_side_order = λ t i. pending_order t 7 Side.buy (pos 100) 10;
  next_order_id = 8;
  sent = [];
}

abbrev reply : ClientResponseType → ℕ → MeClientResponse
reply type leaves_qty = record {
  type = type;
  client_id = 3;
  ticker_id = 1;
  client_order_id = 7;
  market_order_id = 70;
  side = Side.buy;
  price = pos 100;
  exec_qty = 4;
  leaves_qty = leaves_qty;
}

-- Quotes at changing prices, an acceptance and a partial fill.
abbrev events : List Event
events =
    Event.quote 1 (pos 101) (pos 105) 10
    ∷ Event.response (reply ClientResponseType.accepted 10)
    ∷ Event.reassess (λ _ _ _. RiskCheckResult.loss_too_large)
    ∷ Event.quote 1 (pos 102) (pos 106) 10
    ∷ Event.response (reply ClientResponseType.filled 6)
    ∷ Event.quote 1 (pos 103) (pos 107) 10
    ∷ []

run-IsHeld_example : (n : OrderManager) × (run events manager ≡ ok n) × IsHeld 1 2 manager n
unfolding side_to_index
run-IsHeld_example = run-IsHeld 1 2 events manager refl (
  omega arith,
  ((omega arith, refl), (tt, (omega arith, ((omega arith, refl), (omega arith, tt))))),
)

run-Distinct_example :
    (n : OrderManager) × (run events (init 3 (λ _ _ _. RiskCheckResult.allowed)) ≡ ok n)
    × Distinct (new_ids n)
run-Distinct_example =
    run-Distinct 3 (λ _ _ _. RiskCheckResult.allowed) events
      (omega arith, (omega arith, (tt, (omega arith, (omega arith, (omega arith, tt))))))
      (omega arith)
