-- ===== src/Trading/PositionKeeper/Profit.antt =====
-- The profits of an instrument after any run of fills and quotes.
use nano_trade.Base.{
  ◌≡◌, ◌⊎◌, inl, inr, arith, refl, ap, ◌∙◌, true, false, Bool-cases, some, List, [], ◌∷◌,
}
use nano_trade.Base.Int.{pos}
use nano_trade.Base.Double.{Double, add, of_int}
use nano_trade.Exchange.Messages.{MeClientResponse}
use nano_trade.Common.Types.{side_to_index}
use nano_trade.Trading.MarketOrder.{Bbo}
use nano_trade.Trading.PositionKeeper.{
  PositionInfo, add_fill, marked, update_bbo, buy_index, sell_index, is_flat,
}

pub data Event : Type 0 where
  fill : MeClientResponse → Event
  quote : Bbo → Event

module _ {W : Type 0} ⦃d : Double W⦄ where
  abbrev pub handle : PositionInfo W → Event → PositionInfo W
  handle p (Event.fill r) = add_fill p r
  handle p (Event.quote bbo) = update_bbo p bbo

  abbrev pub run : PositionInfo W → List Event → PositionInfo W
  run p [] = p
  run p (e ∷ es) = run (handle p e) es

  -- A flat position carries no open value.
  pub record IsEmpty (p : PositionInfo W) : Type 0 where
    pub unreal : p.unreal_pnl ≡ of_int (pos 0)
    pub buy : p.open_vwap buy_index ≡ of_int (pos 0)
    pub sell : p.open_vwap sell_index ≡ of_int (pos 0)

  -- The profits add up, and the position is open or carries no open value.
  pub record IsSettled (p : PositionInfo W) : Type 0 where
    pub total : p.total_pnl ≡ add p.unreal_pnl p.real_pnl
    pub flat : (is_flat p.position ≡ false) ⊎ IsEmpty p

  marked-IsSettled : (p : PositionInfo W) (x : W) → IsSettled (marked p x)
  unfolding marked side_to_index
  marked-IsSettled p x = record {
    total = refl;
    flat = elim (Bool-cases (is_flat p.position)) [
      | inl e ↦ inr (record { unreal = rw e refl; buy = rw e refl; sell = rw e refl })
      | inr e ↦ inl e
    ];
  }

  update_bbo-flat :
      (p : PositionInfo W) (b : Bbo)
      → is_flat p.position ≡ true
      → update_bbo p b ≡ record p { bbo = some b }
  unfolding update_bbo
  update_bbo-flat p b e = rw e refl

  flat_after :
      (p : PositionInfo W) (b : Bbo)
      → (is_flat p.position ≡ false) ⊎ IsEmpty p
      → (is_flat p.position ≡ false) ⊎ IsEmpty (record p { bbo = some b })
  flat_after p b (inl e) = inl e
  flat_after p b (inr m) = inr (record { unreal = m.unreal; buy = m.buy; sell = m.sell })

  update_bbo-total :
      (p : PositionInfo W) (b : Bbo)
      → p.total_pnl ≡ add p.unreal_pnl p.real_pnl
      → (update_bbo p b).total_pnl ≡ add (update_bbo p b).unreal_pnl (update_bbo p b).real_pnl
  unfolding update_bbo
  update_bbo-total p b t = ground arith

  update_bbo-position : (p : PositionInfo W) (b : Bbo) → (update_bbo p b).position ≡ p.position
  unfolding update_bbo
  update_bbo-position p b = ground arith

  update_bbo-IsSettled : (p : PositionInfo W) (b : Bbo) → IsSettled p → IsSettled (update_bbo p b)
  update_bbo-IsSettled p b s = elim (Bool-cases (is_flat p.position)) [
    | inl e ↦ rw (update_bbo-flat p b e) (record { total = s.total; flat = flat_after p b s.flat })
    | inr e ↦ record {
      total = update_bbo-total p b s.total;
      flat = inl (ap is_flat (update_bbo-position p b) ∙ e);
    }
  ]

  add_fill-IsSettled : (p : PositionInfo W) (r : MeClientResponse) → IsSettled (add_fill p r)
  unfolding add_fill
  add_fill-IsSettled p r = marked-IsSettled _ _

  handle-IsSettled : (p : PositionInfo W) (e : Event) → IsSettled p → IsSettled (handle p e)
  handle-IsSettled p (Event.fill r) s = add_fill-IsSettled p r
  handle-IsSettled p (Event.quote b) s = update_bbo-IsSettled p b s

  handles-IsSettled : (p : PositionInfo W) (es : List Event) → IsSettled p → IsSettled (run p es)
  handles-IsSettled p [] s = s
  handles-IsSettled p (e ∷ es) s = handles-IsSettled (handle p e) es (handle-IsSettled p e s)

  -- Whatever the first content of the instrument, from its first fill on, after any run of fills
  -- and quotes: the total profit is the sum of the unrealized and the realized one, and when the
  -- position is zero the unrealized profit and both open values are zero.
  pub run-IsSettled :
      (p : PositionInfo W) (r : MeClientResponse) (es : List Event)
      → IsSettled (run (add_fill p r) es)
  run-IsSettled p r es = handles-IsSettled (add_fill p r) es (add_fill-IsSettled p r)
