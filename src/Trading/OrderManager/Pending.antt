-- ===== src/Trading/OrderManager/Pending.antt =====
-- One order at a time: what a run of the order manager over quotes and responses sends.
use nano_trade.Base.{
  ℕ, ◌<◌, ◌≡◌, refl, ap, ◌∙◌, arith, Bool, true, false, ◌&&◌, ◌==◌, if◌then◌else◌, update, ltb-lt,
  if-holds, List, [], ◌∷◌, ◌++◌, append-nil,
}
use nano_trade.Base.Int.{ℤ, eqb_ℤ}
use nano_trade.Base.Lists.{All}
use nano_trade.Base.Outcome.{Outcome, ok, and_then}
use nano_trade.Common.Types.{Side, side_to_index, me_max_tickers, price_invalid}
use nano_trade.Exchange.Messages.{
  MeClientRequest, ClientRequestType, MeClientResponse, ClientResponseType,
}
use nano_trade.Trading.RiskManager.{RiskCheckResult}
use nano_trade.Trading.OrderManager.{
  OmOrderState, OmOrder, OrderManager, is_allowed, try_new_order, new_order, cancel_order,
  move_order, move_orders, updated_order, on_order_update, pending_order, write_order,
}

-- What happens to the manager: the strategy quotes, the exchange responds, or the risk manager comes to
-- other answers, as positions and profits change.
pub data Event : Type 0 where
  quote : (ticker_id : ℕ) → (bid_price ask_price : ℤ) → (clip : ℕ) → Event
  response : MeClientResponse → Event
  reassess : (ℕ → Side → ℕ → RiskCheckResult) → Event

unfoldable pub handle : Event → OrderManager → Outcome (Unit {0} × OrderManager)
unfolding move_orders on_order_update
handle (Event.quote t bid ask clip) m = move_orders t bid ask clip m
handle (Event.response r) m = on_order_update r m
handle (Event.reassess risk) m = ok (tt, record m { risk = risk })

unfoldable pub run : List Event → OrderManager → Outcome OrderManager
unfolding handle
run [] m = ok m
run (e ∷ es) m = and_then (handle e m) λ (_, n). run es n

-- An order that the exchange may still fill.
abbrev pub is_out : OmOrderState → Bool
is_out OmOrderState.pending_new = true
is_out OmOrderState.live = true
is_out OmOrderState.pending_cancel = true
is_out _ = false

-- The request is a new order of the instrument on the side with index `i`.
abbrev pub is_new : (ticker_id side_index : ℕ) → MeClientRequest → Bool
is_new t i r = elim r.type [
  | ClientRequestType.new ↦ (r.ticker_id == t) && (side_to_index r.side == i)
  | _ ↦ false
]

abbrev pub select : (MeClientRequest → Bool) → List MeClientRequest → List MeClientRequest
select p [] = []
select p (r ∷ rs) = if p r then r ∷ select p rs else select p rs

abbrev pub new_sent : (ticker_id side_index : ℕ) → OrderManager → List MeClientRequest
new_sent t i m = select (is_new t i) m.sent

-- The response ends the order of the instrument and the side: a cancel, or a fill with nothing left.
abbrev pub ends : (ticker_id side_index : ℕ) → MeClientResponse → Bool
ends t i r = elim r.type [
  | ClientResponseType.canceled ↦ (r.ticker_id == t) && (side_to_index r.side == i)
  | ClientResponseType.filled ↦
      ((r.ticker_id == t) && (side_to_index r.side == i)) && (r.leaves_qty == 0)
  | _ ↦ false
]

-- The instrument is in range, and no response ends the order.
abbrev pub IsQuiet : (ticker_id side_index : ℕ) → Event → Type 0
IsQuiet t i (Event.quote u bid ask clip) = u < me_max_tickers
IsQuiet t i (Event.response r) = (r.ticker_id < me_max_tickers) × (ends t i r ≡ false)
IsQuiet t i (Event.reassess risk) = Unit

pub select-append :
    (p : MeClientRequest → Bool) (xs ys : List MeClientRequest)
    → select p (xs ++ ys) ≡ select p xs ++ select p ys
select-append p [] ys = refl
select-append p (x ∷ xs) ys = rw (select-append p xs ys) (ground arith)

-- The order of an instrument and a side, its identity and the new orders sent for it.
pub record IsHeld (t i : ℕ) (m n : OrderManager) : Type 0 where
  pub same_order : (n.ticker_side_order t i).order_id ≡ (m.ticker_side_order t i).order_id
  pub out : is_out (n.ticker_side_order t i).order_state ≡ true
  pub same_sent : new_sent t i n ≡ new_sent t i m

write-other :
    (f : ℕ → ℕ → OmOrder) (t i u j : ℕ) (v : OmOrder)
    → ((u == t) && (j == i)) ≡ false
    → update f u (update (f u) j v) t i ≡ f t i
write-other f t i u j v h = grind arith

module _ (t i : ℕ) (m : OrderManager) where
  distinct-slot :
      (u j : ℕ)
      → is_out (m.ticker_side_order t i).order_state ≡ true
      → is_out (m.ticker_side_order u j).order_state ≡ false
      → ((u == t) && (j == i)) ≡ false
  distinct-slot u j o n = grind arith

  new_order-IsHeld :
      (u : ℕ) (price : ℤ) (side : Side) (qty : ℕ)
      → is_out (m.ticker_side_order t i).order_state ≡ true
      → is_out (m.ticker_side_order u (side_to_index side)).order_state ≡ false
      → IsHeld t i m (new_order m (side_to_index side) u price side qty)
  unfolding new_order
  new_order-IsHeld u price side qty o n =
      let k = distinct-slot u (side_to_index side) o n in
      let same =
        write-other m.ticker_side_order t i u (side_to_index side)
          (pending_order u m.next_order_id side price qty) k in
      record {
        same_order = ap OmOrder.order_id same;
        out = rw same o;
        same_sent = rw (select-append, k, append-nil) refl;
      }

  cancel_order-IsHeld :
      (u j : ℕ)
      → is_out (m.ticker_side_order t i).order_state ≡ true
      → IsHeld t i m (cancel_order m u j)
  unfolding cancel_order
  cancel_order-IsHeld u j o = record {
    same_order = ground arith;
    out = ground arith;
    same_sent = rw (select-append, append-nil) refl;
  }

  try_new_order-IsHeld :
      (u : ℕ) (price : ℤ) (side : Side) (qty : ℕ)
      → is_out (m.ticker_side_order t i).order_state ≡ true
      → is_out (m.ticker_side_order u (side_to_index side)).order_state ≡ false
      → IsHeld t i m (try_new_order m (side_to_index side) u price side qty)
  unfolding try_new_order
  try_new_order-IsHeld u price side qty o n =
      if-holds (IsHeld t i m) (eqb_ℤ price price_invalid) unchanged (
        if-holds (IsHeld t i m) (is_allowed (m.risk u side qty))
          (new_order-IsHeld u price side qty o n) unchanged)
    where
      unchanged : IsHeld t i m m
      unchanged = record { same_order = refl; out = o; same_sent = refl }

  -- A quote leaves an order that is out as the only one of its instrument and side.
  move_order-IsHeld :
      (u : ℕ) (price : ℤ) (side : Side) (qty : ℕ)
      → is_out (m.ticker_side_order t i).order_state ≡ true
      → IsHeld t i m (move_order m (side_to_index side) u price side qty)
  unfolding move_order
  move_order-IsHeld u price side qty o =
      from (m.ticker_side_order u (side_to_index side)).order_state refl
    where
      unchanged : IsHeld t i m m
      unchanged = record { same_order = refl; out = o; same_sent = refl }

      from :
          (s : OmOrderState)
          → (m.ticker_side_order u (side_to_index side)).order_state ≡ s
          → IsHeld t i m (move_order m (side_to_index side) u price side qty)
      from OmOrderState.invalid e =
          rw (e, move_order) (try_new_order-IsHeld u price side qty o (rw e refl))
      from OmOrderState.dead e =
          rw (e, move_order) (try_new_order-IsHeld u price side qty o (rw e refl))
      from OmOrderState.pending_new e = rw (e, move_order) unchanged
      from OmOrderState.pending_cancel e = rw (e, move_order) unchanged
      from OmOrderState.live e =
          rw (e, move_order)
            (if-holds (IsHeld t i m)
              (eqb_ℤ (m.ticker_side_order u (side_to_index side)).price price) unchanged
              (cancel_order-IsHeld u (side_to_index side) o))

IsHeld-trans : (t i : ℕ) (m n k : OrderManager) → IsHeld t i m n → IsHeld t i n k → IsHeld t i m k
IsHeld-trans t i m n k p q = record {
  same_order = q.same_order ∙ p.same_order;
  out = q.out;
  same_sent = q.same_sent ∙ p.same_sent;
}

-- A response that does not end the order leaves it out.
updated_order-out :
    (t i : ℕ) (f : ℕ → ℕ → OmOrder) (r : MeClientResponse)
    → is_out (f t i).order_state ≡ true
    → ends t i r ≡ false
    → let g = update f r.ticker_id (
        update
          (f r.ticker_id)
          (side_to_index r.side)
          (updated_order (f r.ticker_id (side_to_index r.side)) r)) in
      ((g t i).order_id ≡ (f t i).order_id) × (is_out (g t i).order_state ≡ true)
unfolding updated_order
updated_order-out t i f r o n = ground arith

handle-IsHeld :
    (t i : ℕ) (e : Event) (m : OrderManager)
    → is_out (m.ticker_side_order t i).order_state ≡ true
    → IsQuiet t i e
    → (n : OrderManager) × (handle e m ≡ ok (tt, n)) × IsHeld t i m n
unfolding handle move_orders on_order_update
handle-IsHeld t i (Event.quote u bid ask clip) m o q =
    let first = move_order-IsHeld t i m u bid Side.buy clip o in
    let n = move_order m (side_to_index Side.buy) u bid Side.buy clip in
    let second = move_order-IsHeld t i n u ask Side.sell clip first.out in
    (
      move_order n (side_to_index Side.sell) u ask Side.sell clip,
      rw (ltb-lt u me_max_tickers q) refl,
      IsHeld-trans t i m n _ first second,
    )
handle-IsHeld t i (Event.response r) m o q =
    let (order, out) = updated_order-out t i m.ticker_side_order r o q.1 in
    (
      write_order m r.ticker_id (side_to_index r.side)
          (updated_order (m.ticker_side_order r.ticker_id (side_to_index r.side)) r),
      rw (ltb-lt r.ticker_id me_max_tickers q.0) refl,
      record { same_order = order; out = out; same_sent = refl },
    )
handle-IsHeld t i (Event.reassess risk) m o q =
    (record m { risk = risk }, refl, record { same_order = refl; out = o; same_sent = refl })

-- From a state in which an order of an instrument and side is out, over quotes and responses for
-- instruments in range, of which none ends that order, and whatever the risk checks answer: the run
-- has no fault, the order stays out under its number, and no other new order is sent for the
-- instrument and side.
pub run-IsHeld :
    (t i : ℕ) (es : List Event) (m : OrderManager)
    → is_out (m.ticker_side_order t i).order_state ≡ true
    → All (IsQuiet t i) es
    → (n : OrderManager) × (run es m ≡ ok n) × IsHeld t i m n
unfolding run
run-IsHeld t i [] m o q = (m, refl, record { same_order = refl; out = o; same_sent = refl })
run-IsHeld t i (e ∷ es) m o q =
    let (n, ran, held) = handle-IsHeld t i e m o q.0 in
    let (k, ran', held') = run-IsHeld t i es n held.out q.1 in
    (k, rw ran ran', IsHeld-trans t i m n k held held')
