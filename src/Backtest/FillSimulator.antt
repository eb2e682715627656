-- ===== src/Backtest/FillSimulator.antt =====
-- backtest/fill_simulator.h and fill_simulator.cpp: fills for the orders of a strategy against a
-- recorded market.
pub mod Fills
mod Tests
use nano_trade.Base.{
  ℕ, ◌+◌, ◌-◌, min, Bool, true, false, not, ◌&&◌, ◌||◌, ◌==◌, ltb, leb, if◌then◌else◌, Option, none,
  some, List, [], ◌∷◌,
}
use nano_trade.Base.Int.{ℤ, eqb_ℤ, pos_part, neg_part}
use nano_trade.Common.Types.{
  Side, side_to_value, price_invalid, qty_invalid, priority_invalid, to_u64, is_buy, is_sell,
}
use nano_trade.Common.LfQueue.{LfQueue, push}
use nano_trade.Trading.MarketOrder.{Bbo}
use nano_trade.Exchange.Messages.{
  MeClientRequest, ClientRequestType, MeClientResponse, ClientResponseType, MeMarketUpdate,
  MarketUpdateType,
}

pub data FillMode : Type 0 where
  aggressive_only queue_aware : FillMode

pub record PendingOrder : Type 0 where
  pub req : MeClientRequest
  pub bbo_at_submit : Bbo
  pub leaves_qty : ℕ
  pub queue_ahead_qty : ℕ
  pub priority_watermark : ℕ
  pub queue_aware : Bool

-- The unordered map of pending orders is a list of its entries, in the order of iteration, which may
-- be any.
pub record FillSimulator : Type 0 where
  pub mode : FillMode
  pub outgoing_responses : LfQueue MeClientResponse
  pub global_priority_watermark : ℕ
  pub pending : List (ℕ × PendingOrder)
  pub next_market_order_id : ℕ
  pub fills_emitted : ℕ
  pub passive_fills_emitted : ℕ

unfoldable pub init : FillMode → LfQueue MeClientResponse → FillSimulator
init mode responses = record {
  mode = mode;
  outgoing_responses = responses;
  global_priority_watermark = 0;
  pending = [];
  next_market_order_id = 1;
  fills_emitted = 0;
  passive_fills_emitted = 0;
}

abbrev pub response :
    MeClientRequest → ClientResponseType → (exec_qty leaves_qty : ℕ) → ℤ → ℕ → MeClientResponse
response req type exec_qty leaves_qty fill_price market_order_id = record {
  type = type;
  client_id = req.client_id;
  ticker_id = req.ticker_id;
  client_order_id = req.order_id;
  market_order_id = market_order_id;
  side = req.side;
  price = fill_price;
  exec_qty = exec_qty;
  leaves_qty = leaves_qty;
}

-- The response goes out under the next market order number.
unfoldable pub emit_response :
    FillSimulator
    → MeClientRequest
    → ClientResponseType
    → (exec_qty leaves_qty : ℕ) → ℤ
    → FillSimulator
emit_response s req type exec_qty leaves_qty fill_price = record s {
  outgoing_responses =
      push s.outgoing_responses
        (response req type exec_qty leaves_qty fill_price s.next_market_order_id);
  next_market_order_id = to_u64 (s.next_market_order_id + 1);
}

abbrev pub geb_ℤ : ℤ → ℤ → Bool
geb_ℤ a b = leb (pos_part b + neg_part a) (pos_part a + neg_part b)

-- `tryAggressiveFill`: the quantity and the price of the fill, or `none`.
unfoldable pub aggressive_fill : MeClientRequest → Bbo → (leaves_qty : ℕ) → Option (ℕ × ℤ)
aggressive_fill req cur leaves_qty =
    let ask_avail = if cur.ask_qty == qty_invalid then 0 else cur.ask_qty in
    let bid_avail = if cur.bid_qty == qty_invalid then 0 else cur.bid_qty in
    if is_buy req.side && (not (eqb_ℤ cur.ask_price price_invalid) && geb_ℤ req.price cur.ask_price)
    then if min leaves_qty ask_avail == 0
      then none
      else some (min leaves_qty ask_avail, cur.ask_price)
    else if is_sell req.side
        && (not (eqb_ℤ cur.bid_price price_invalid) && geb_ℤ cur.bid_price req.price)
    then if min leaves_qty bid_avail == 0
      then none
      else some (min leaves_qty bid_avail, cur.bid_price)
    else none

-- Called in the queue aware mode only, whose book is not null.
unfoldable pub snapshot_queue_ahead : Bbo → ℤ → Side → ℕ
snapshot_queue_ahead cur price side =
    if is_buy side && (eqb_ℤ price cur.bid_price && not (cur.bid_qty == qty_invalid))
    then cur.bid_qty
    else if is_sell side && (eqb_ℤ price cur.ask_price && not (cur.ask_qty == qty_invalid))
    then cur.ask_qty
    else 0

-- What of a trade or a cancel was ahead of the order.
abbrev pub consumed_ahead : PendingOrder → MeMarketUpdate → ℕ
consumed_ahead po ev =
    if leb ev.priority po.priority_watermark then min ev.qty po.queue_ahead_qty else 0

-- A trade at the price and on the side of the order: the order, and the quantity that it fills, 0 for
-- no fill.
unfoldable pub passive_trade : PendingOrder → MeMarketUpdate → PendingOrder × ℕ
passive_trade po ev =
    let ahead = po.queue_ahead_qty - consumed_ahead po ev in
    let trade_left = ev.qty - consumed_ahead po ev in
    let fill_qty = min po.leaves_qty trade_left in
    if (ahead == 0) && (ltb 0 trade_left && ltb 0 po.leaves_qty)
    then (record po { queue_ahead_qty = ahead; leaves_qty = po.leaves_qty - fill_qty }, fill_qty)
    else (record po { queue_ahead_qty = ahead }, 0)

unfoldable pub passive_cancel : PendingOrder → MeMarketUpdate → PendingOrder
passive_cancel po ev = record po { queue_ahead_qty = po.queue_ahead_qty - consumed_ahead po ev }

abbrev pub is_concerned : PendingOrder → MeMarketUpdate → Bool
is_concerned po ev =
    po.queue_aware
    && (eqb_ℤ po.req.price ev.price && eqb_ℤ (side_to_value po.req.side) (side_to_value ev.side))

unfoldable pub passive_event : PendingOrder → MeMarketUpdate → PendingOrder × ℕ
unfolding passive_trade passive_cancel
passive_event po ev = if not (is_concerned po ev) then (po, 0) else elim ev.type [
  | MarketUpdateType.trade ↦ passive_trade po ev
  | MarketUpdateType.cancel ↦ (passive_cancel po ev, 0)
  | _ ↦ (po, 0)
]

-- The response to a fill from the queue.
unfoldable pub emit_passive : FillSimulator → PendingOrder → ℕ → FillSimulator
unfolding emit_response
emit_passive s po fill_qty =
    let t = emit_response s po.req ClientResponseType.filled fill_qty po.leaves_qty po.req.price in
    record t {
      fills_emitted = to_u64 (t.fills_emitted + 1);
      passive_fills_emitted = to_u64 (t.passive_fills_emitted + 1);
    }

-- The loop over the pending orders: those that are left, and the simulator.
unfoldable pub passive_events :
    MeMarketUpdate
    → List (ℕ × PendingOrder)
    → FillSimulator
    → List (ℕ × PendingOrder) × FillSimulator
unfolding passive_event emit_passive
passive_events ev [] s = ([], s)
passive_events ev ((k, po) ∷ pos) s =
    let (po', fill_qty) = passive_event po ev in
    let t = if fill_qty == 0 then s else emit_passive s po' fill_qty in
    let (rest, u) = passive_events ev pos t in
    if not (fill_qty == 0) && (po'.leaves_qty == 0) then (rest, u) else ((k, po') ∷ rest, u)

unfoldable pub on_sim_market_event : FillSimulator → MeMarketUpdate → FillSimulator
unfolding passive_events
on_sim_market_event s ev =
    let watermark =
      if not (ev.priority == priority_invalid) && ltb s.global_priority_watermark ev.priority
      then ev.priority
      else s.global_priority_watermark in
    let (left, t) =
      passive_events ev s.pending (record s { global_priority_watermark = watermark }) in
    record t { pending = left }

unfoldable pub find : ℕ → List (ℕ × PendingOrder) → Bool
find k [] = false
find k ((j, _) ∷ q) = (j == k) || find k q

unfoldable pub erase : ℕ → List (ℕ × PendingOrder) → List (ℕ × PendingOrder)
erase k [] = []
erase k ((j, po) ∷ q) = let rest = erase k q in if j == k then rest else (j, po) ∷ rest

-- The body of the loop over the requests; `emplace` does nothing for a number that is there.
unfoldable pub on_request : FillSimulator → Bbo → MeClientRequest → FillSimulator
unfolding emit_response find erase
on_request s bbo req = elim req.type [
  | ClientRequestType.new ↦
      let t = emit_response s req ClientResponseType.accepted 0 req.qty req.price in
      if find req.order_id t.pending then t else record t {
        pending =
            (
              req.order_id,
              record {
                req = req;
                bbo_at_submit = bbo;
                leaves_qty = req.qty;
                queue_ahead_qty = 0;
                priority_watermark = 0;
                queue_aware = false;
              },
            )
            ∷ t.pending;
      }
  | ClientRequestType.cancel ↦
      if find req.order_id s.pending
      then (let t = emit_response s req ClientResponseType.canceled 0 0 req.price in
          record t { pending = erase req.order_id t.pending })
      else emit_response s req ClientResponseType.cancel_rejected 0 0 req.price
  | ClientRequestType.invalid ↦ s
]

abbrev pub bbo_changed : Bbo → Bbo → Bool
bbo_changed a b =
    not (eqb_ℤ a.bid_price b.bid_price)
    || (not (eqb_ℤ a.ask_price b.ask_price)
        || (not (a.bid_qty == b.bid_qty) || not (a.ask_qty == b.ask_qty)))

-- An order that the current prices do not fill: it may join the queue at its price.
unfoldable pub rest_order : FillSimulator → Bbo → PendingOrder → PendingOrder
unfolding snapshot_queue_ahead
rest_order s cur po = elim s.mode [
  | FillMode.queue_aware ↦ if po.queue_aware then record po { bbo_at_submit = cur } else record po {
    bbo_at_submit = cur;
    queue_ahead_qty = snapshot_queue_ahead cur po.req.price po.req.side;
    priority_watermark = s.global_priority_watermark;
    queue_aware = true;
  }
  | FillMode.aggressive_only ↦ record po { bbo_at_submit = cur }
]

unfoldable pub emit_aggressive : FillSimulator → PendingOrder → ℕ → ℤ → FillSimulator
unfolding emit_response
emit_aggressive s po fill_qty fill_price =
    let t = emit_response s po.req ClientResponseType.filled fill_qty 0 fill_price in
    record t { fills_emitted = to_u64 (t.fills_emitted + 1) }

-- The loop over the pending orders for the current prices.
unfoldable pub aggressive_fills :
    Bbo → List (ℕ × PendingOrder) → FillSimulator → List (ℕ × PendingOrder) × FillSimulator
unfolding aggressive_fill emit_aggressive rest_order
aggressive_fills cur [] s = ([], s)
aggressive_fills cur ((k, po) ∷ pos) s =
    elim (if bbo_changed cur po.bbo_at_submit
      then aggressive_fill po.req cur po.leaves_qty
      else none) [
        | none ↦
            let (rest, t) = aggressive_fills cur pos s in
            ((k, if bbo_changed cur po.bbo_at_submit then rest_order s cur po else po) ∷ rest, t)
        | some (fill_qty, fill_price) ↦
            aggressive_fills cur pos (emit_aggressive s po fill_qty fill_price)
      ]
