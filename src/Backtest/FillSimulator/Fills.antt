-- ===== src/Backtest/FillSimulator/Fills.antt =====
-- How much and at which price the simulator fills.
use nano_trade.Base.{
  ℕ, ◌+◌, ◌≤◌, ◌≡◌, ◌⊎◌, inl, refl, arith, Bool, true, false, not, if◌then◌else◌, some, List, [],
  ◌∷◌,
}
use nano_trade.Base.Int.{ℤ, ◌≤ℤ◌}
use nano_trade.Common.Types.{is_buy, is_sell}
use nano_trade.Exchange.Messages.{MeClientRequest, MeMarketUpdate, MarketUpdateType}
use nano_trade.Trading.MarketOrder.{Bbo}
use nano_trade.Backtest.FillSimulator.{
  PendingOrder, passive_event, passive_trade, passive_cancel, aggressive_fill, is_concerned,
}

-- What an event may do to a pending order, and the quantity that it may fill.
pub record IsFair (po : PendingOrder) (ev : MeMarketUpdate) (po' : PendingOrder) (fill_qty : ℕ)
    : Type 0 where
  pub conserved : po'.leaves_qty + fill_qty ≡ po.leaves_qty
  pub shrinks : po'.queue_ahead_qty ≤ po.queue_ahead_qty
  pub in_turn :
      (fill_qty ≡ 0) ⊎ ((po'.queue_ahead_qty ≡ 0) × (po.queue_ahead_qty + fill_qty ≤ ev.qty))
  pub same_req : po'.req ≡ po.req

same-IsFair : (po : PendingOrder) (ev : MeMarketUpdate) → IsFair po ev po 0
same-IsFair po ev = record {
  conserved = omega arith;
  shrinks = omega arith;
  in_turn = inl refl;
  same_req = refl;
}

passive_trade-IsFair :
    (po : PendingOrder) (ev : MeMarketUpdate)
    → let (po', fill_qty) = passive_trade po ev in IsFair po ev po' fill_qty
unfolding passive_trade
passive_trade-IsFair po ev = ground arith

passive_cancel-IsFair :
    (po : PendingOrder) (ev : MeMarketUpdate) → IsFair po ev (passive_cancel po ev) 0
unfolding passive_cancel
passive_cancel-IsFair po ev = ground arith

-- An event takes off a pending order what it fills; the queue ahead only shrinks, and a fill comes
-- only when that queue is empty and from what the event leaves over after it. The request stays.
pub passive_event-IsFair :
    (po : PendingOrder) (ev : MeMarketUpdate)
    → let (po', fill_qty) = passive_event po ev in IsFair po ev po' fill_qty
unfolding passive_event
passive_event-IsFair po ev = from (is_concerned po ev) ev.type
  where
    from :
        (b : Bool) (type : MarketUpdateType)
        → let r : PendingOrder × ℕ =
            (if not b then (po, 0) else elim type [
              | MarketUpdateType.trade ↦ passive_trade po ev
              | MarketUpdateType.cancel ↦ (passive_cancel po ev, 0)
              | _ ↦ (po, 0)
            ]) in
          IsFair po ev r.0 r.1
    from false type = same-IsFair po ev
    from true MarketUpdateType.trade = passive_trade-IsFair po ev
    from true MarketUpdateType.cancel = passive_cancel-IsFair po ev
    from true MarketUpdateType.invalid = same-IsFair po ev
    from true MarketUpdateType.clear = same-IsFair po ev
    from true MarketUpdateType.add = same-IsFair po ev
    from true MarketUpdateType.modify = same-IsFair po ev
    from true MarketUpdateType.snapshot_start = same-IsFair po ev
    from true MarketUpdateType.snapshot_end = same-IsFair po ev

-- A fill against the current prices is for at least one and for no more than what the order still
-- wants and the other side offers, and its price is no worse for the order than its limit.
pub aggressive_fill-within :
    (req : MeClientRequest) (cur : Bbo) (leaves_qty fill_qty : ℕ) (price : ℤ)
    → aggressive_fill req cur leaves_qty ≡ some (fill_qty, price)
    → (fill_qty ≤ leaves_qty)
      × (1 ≤ fill_qty)
      × (((is_buy req.side ≡ true) × (price ≤ℤ req.price) × (fill_qty ≤ cur.ask_qty))
          ⊎ ((is_sell req.side ≡ true) × (req.price ≤ℤ price) × (fill_qty ≤ cur.bid_qty)))
unfolding aggressive_fill
aggressive_fill-within req cur leaves_qty fill_qty price e = ground arith

-- A whole run of events against one order.
unfoldable pub passive_run : PendingOrder → List MeMarketUpdate → PendingOrder × ℕ
unfolding passive_event
passive_run po [] = (po, 0)
passive_run po (ev ∷ evs) =
    let (po', fill_qty) = passive_event po ev in
    let (po'', filled) = passive_run po' evs in (po'', fill_qty + filled)

-- Over any run of market events, what is filled of a pending order and what it still wants add up
-- to what it wanted at first; the queue ahead of it does not grow, and when anything has been
-- filled that queue is empty.
pub passive_run-conserves :
    (evs : List MeMarketUpdate) (po : PendingOrder)
    → let (po', filled) = passive_run po evs in
      (po'.leaves_qty + filled ≡ po.leaves_qty)
      × (po'.queue_ahead_qty ≤ po.queue_ahead_qty)
      × ((filled ≡ 0) ⊎ (po'.queue_ahead_qty ≡ 0))
unfolding passive_run
passive_run-conserves [] po = (omega arith, omega arith, inl refl)
passive_run-conserves (ev ∷ evs) po =
    let (po', fill_qty) = passive_event po ev in
    let f = passive_event-IsFair po ev in
    let (conserved, shrinks, turn) = passive_run-conserves evs po' in
    (
      omega (arith, f.conserved, conserved),
      omega (arith, f.shrinks, shrinks),
      ground (arith, f.in_turn, turn, shrinks),
    )
