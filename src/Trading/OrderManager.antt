-- ===== src/Trading/OrderManager.antt =====
-- trading/strategy/om_order.h, order_manager.h and order_manager.cpp: at most one order of the
-- strategy for each instrument and side.
pub mod Ids
pub mod Pending
mod Tests
use nano_trade.Base.{
  ℕ, ◌+◌, Bool, true, false, not, ◌==◌, ltb, if◌then◌else◌, update, List, ◌∷◌, [], ◌++◌,
}
use nano_trade.Base.Int.{ℤ, eqb_ℤ}
use nano_trade.Base.Outcome.{M, pure, abort, out_of_range, ◌>>=◌, ◌>>◌, get, put}
use nano_trade.Common.Types.{
  Side, side_to_index, me_max_tickers, price_invalid, ticker_id_invalid, order_id_invalid,
  qty_invalid, to_u64,
}
use nano_trade.Exchange.Messages.{
  MeClientRequest, ClientRequestType, MeClientResponse, ClientResponseType,
}
use nano_trade.Trading.RiskManager.{RiskCheckResult}

pub data OmOrderState : Type 0 where
  invalid pending_new live pending_cancel dead : OmOrderState

pub record OmOrder : Type 0 where
  pub ticker_id : ℕ
  pub order_id : ℕ
  pub side : Side
  pub price : ℤ
  pub qty : ℕ
  pub order_state : OmOrderState

-- `sent` stands for the calls of `trade_engine_->sendClientRequest`, in order, and `client_id` for
-- `trade_engine_->clientId()`. `risk` answers `risk_manager_.checkPreTradeRisk` in the current state of the
-- positions.
pub record OrderManager : Type 0 where
  pub client_id : ℕ
  pub risk : ℕ → Side → ℕ → RiskCheckResult
  pub ticker_side_order : ℕ → ℕ → OmOrder
  pub next_order_id : ℕ
  pub sent : List MeClientRequest

abbrev pub no_order : OmOrder
no_order = record {
  ticker_id = ticker_id_invalid;
  order_id = order_id_invalid;
  side = Side.invalid;
  price = price_invalid;
  qty = qty_invalid;
  order_state = OmOrderState.invalid;
}

unfoldable pub init : ℕ → (ℕ → Side → ℕ → RiskCheckResult) → OrderManager
init client_id risk = record {
  client_id = client_id;
  risk = risk;
  ticker_side_order = λ _ _. no_order;
  next_order_id = 1;
  sent = [];
}

abbrev pub Manager : Type 0 → Type 0
Manager A = M OrderManager A

-- `*order = v` for the order of an instrument and a side.
abbrev pub write_order : OrderManager → (ticker_id side_index : ℕ) → OmOrder → OrderManager
write_order m t i v = record m {
  ticker_side_order = update m.ticker_side_order t (update (m.ticker_side_order t) i v);
}

abbrev pub send : OrderManager → MeClientRequest → OrderManager
send m r = record m { sent = m.sent ++ r ∷ [] }

abbrev pub new_request : (client_id ticker_id order_id : ℕ) → Side → ℤ → ℕ → MeClientRequest
new_request client_id ticker_id order_id side price qty = record {
  type = ClientRequestType.new;
  client_id = client_id;
  ticker_id = ticker_id;
  order_id = order_id;
  side = side;
  price = price;
  qty = qty;
}

abbrev pub cancel_request : ℕ → OmOrder → MeClientRequest
cancel_request client_id order = record {
  type = ClientRequestType.cancel;
  client_id = client_id;
  ticker_id = order.ticker_id;
  order_id = order.order_id;
  side = order.side;
  price = order.price;
  qty = order.qty;
}

abbrev pub pending_order : (ticker_id order_id : ℕ) → Side → ℤ → ℕ → OmOrder
pending_order ticker_id order_id side price qty = record {
  ticker_id = ticker_id;
  order_id = order_id;
  side = side;
  price = price;
  qty = qty;
  order_state = OmOrderState.pending_new;
}

unfoldable pub new_order : OrderManager → (side_index ticker_id : ℕ) → ℤ → Side → ℕ → OrderManager
new_order m i ticker_id price side qty =
    record (write_order (send m (new_request m.client_id ticker_id m.next_order_id side price qty))
      ticker_id i (pending_order ticker_id m.next_order_id side price qty)) {
        next_order_id = to_u64 (m.next_order_id + 1);
      }

unfoldable pub cancel_order : OrderManager → (ticker_id side_index : ℕ) → OrderManager
cancel_order m t i =
    let order = m.ticker_side_order t i in
    write_order (send m (cancel_request m.client_id order)) t i
      (record order { order_state = OmOrderState.pending_cancel })

abbrev pub is_allowed : RiskCheckResult → Bool
is_allowed RiskCheckResult.allowed = true
is_allowed _ = false

-- Where no order is out: send one, if a price is wanted and the risk check allows it.
unfoldable pub try_new_order :
    OrderManager → (side_index ticker_id : ℕ) → ℤ → Side → ℕ → OrderManager
unfolding new_order
try_new_order m i ticker_id price side qty =
    if eqb_ℤ price price_invalid
    then m
    else if is_allowed (m.risk ticker_id side qty)
    then new_order m i ticker_id price side qty
    else m

-- `moveOrder` on the order of `ticker_id` and the index `i` of `side`.
unfoldable pub move_order : OrderManager → (side_index ticker_id : ℕ) → ℤ → Side → ℕ → OrderManager
unfolding try_new_order cancel_order
move_order m i ticker_id price side qty = elim (m.ticker_side_order ticker_id i).order_state [
  | OmOrderState.live ↦
      if eqb_ℤ (m.ticker_side_order ticker_id i).price price then m else cancel_order m ticker_id i
  | OmOrderState.invalid ↦ try_new_order m i ticker_id price side qty
  | OmOrderState.dead ↦ try_new_order m i ticker_id price side qty
  | OmOrderState.pending_new ↦ m
  | OmOrderState.pending_cancel ↦ m
]

unfoldable pub move_orders : ℕ → (bid_price ask_price : ℤ) → ℕ → Manager (Unit {0})
unfolding move_order side_to_index
move_orders ticker_id bid_price ask_price clip = do
  m ← get
  if ltb ticker_id me_max_tickers
      then (put (
          move_order (move_order m (side_to_index Side.buy) ticker_id bid_price Side.buy clip)
            (side_to_index Side.sell) ticker_id ask_price Side.sell clip))
      else abort out_of_range

abbrev pub with_state : OmOrder → OmOrderState → OmOrder
with_state order s = record order { order_state = s }

-- What a response makes of its order.
unfoldable pub updated_order : OmOrder → MeClientResponse → OmOrder
updated_order order response = elim response.type [
  | ClientResponseType.accepted ↦ with_state order OmOrderState.live
  | ClientResponseType.canceled ↦ with_state order OmOrderState.dead
  | ClientResponseType.filled ↦
      if response.leaves_qty == 0
      then record order { qty = response.leaves_qty; order_state = OmOrderState.dead }
      else record order { qty = response.leaves_qty }
  | ClientResponseType.cancel_rejected ↦ order
  | ClientResponseType.invalid ↦ order
]

unfoldable pub on_order_update : MeClientResponse → Manager (Unit {0})
unfolding updated_order side_to_index
on_order_update response = do
  m ← get
  let i = side_to_index response.side
  if ltb response.ticker_id me_max_tickers
      then (put (
          write_order m response.ticker_id i
            (updated_order (m.ticker_side_order response.ticker_id i) response)))
      else abort out_of_range
