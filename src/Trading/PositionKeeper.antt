-- ===== src/Trading/PositionKeeper.antt =====
-- trading/strategy/position_keeper.h: the position, the profits and the volume of each instrument.
-- A `double` is a parameter with its operations. Logs and `toString` are not modelled.
pub mod Fills
pub mod Profit
mod Tests
use nano_trade.Base.{
  ℕ, suc, ◌+◌, ◌-◌, ◌*◌, ◌^◌, ◌%◌, Option, none, some, Bool, true, false, not, ◌&&◌, if◌then◌else◌,
  update, ltb,
}
use nano_trade.Base.Int.{ℤ, pos, negsuc, ltb_ℤ, eqb_ℤ, ◌+ℤ◌, ◌*ℤ◌}
use nano_trade.Base.Double.{Double, add, sub, mul, div, of_int, half}
use nano_trade.Base.Outcome.{Outcome, ok, fault, out_of_range, and_then}
use nano_trade.Common.Types.{
  Side, is_buy, side_to_index, side_to_value, to_qty, price_invalid, me_max_tickers,
}
use nano_trade.Exchange.Messages.{MeClientResponse}
use nano_trade.Trading.MarketOrder.{Bbo}
use nano_trade.Trading.RiskManager.{to_i32, abs}

-- The conversion of an `int` to 32 bits without sign.
abbrev pub to_u32 : ℤ → ℕ
to_u32 (pos n) = n % 2 ^ 32
to_u32 (negsuc n) = 2 ^ 32 - 1 - n % 2 ^ 32

-- `position_ += exec_qty_ * side_value`: the product and the sum are of 32 bits without sign, since
-- `exec_qty_` is, and the sum is converted back.
unfoldable pub moved : ℤ → (side_value : ℤ) → (exec_qty : ℕ) → ℤ
moved position side_value exec_qty =
    to_i32 ((to_u32 position + exec_qty * to_u32 side_value % 2 ^ 32) % 2 ^ 32)

-- `std::min` on `int32_t`.
abbrev pub min_ℤ : ℤ → ℤ → ℤ
min_ℤ a b = if ltb_ℤ b a then b else a

abbrev pub buy_index : ℕ
buy_index = side_to_index Side.buy

abbrev pub sell_index : ℕ
sell_index = side_to_index Side.sell

abbrev pub opposite : Side → Side
opposite side = if is_buy side then Side.sell else Side.buy

-- `bbo_` is only printed; here it is what it led to at the last call.
pub record PositionInfo (W : Type 0) : Type 0 where
  pub position : ℤ
  pub real_pnl : W
  pub unreal_pnl : W
  pub total_pnl : W
  pub open_vwap : ℕ → W
  pub volume : ℕ
  pub bbo : Option Bbo

abbrev pub is_flat : ℤ → Bool
is_flat position = eqb_ℤ position (pos 0)

abbrev pub is_two_sided : Bbo → Bool
is_two_sided bbo =
    not (eqb_ℤ bbo.bid_price price_invalid) && not (eqb_ℤ bbo.ask_price price_invalid)

module _ {W : Type 0} ⦃d : Double W⦄ where
  -- `open_vwap_` has no initialiser: its first content is a parameter.
  abbrev pub new_position : (ℕ → W) → PositionInfo W
  new_position open_vwap = record {
    position = pos 0;
    real_pnl = of_int (pos 0);
    unreal_pnl = of_int (pos 0);
    total_pnl = of_int (pos 0);
    open_vwap = open_vwap;
    volume = 0;
    bbo = none;
  }

  -- The products of integers are exact: their overflow, which is undefined, is not modelled.
  unfoldable pub opened_vwap : PositionInfo W → MeClientResponse → ℕ → W
  opened_vwap p r =
      let i = side_to_index r.side in
      update p.open_vwap i (add (p.open_vwap i) (of_int (r.price *ℤ pos r.exec_qty)))

  -- `opp_side_vwap`
  unfoldable pub average : PositionInfo W → MeClientResponse → W
  average p r = div (p.open_vwap (side_to_index (opposite r.side))) (of_int (abs p.position))

  unfoldable pub decreased_vwap : PositionInfo W → MeClientResponse → (position : ℤ) → ℕ → W
  decreased_vwap p r position =
      let i = side_to_index r.side in
      let j = side_to_index (opposite r.side) in
      let vwap = update p.open_vwap j (mul (average p r) (of_int (abs position))) in
      if ltb_ℤ (position *ℤ p.position) (pos 0)
      then update (update vwap i (of_int (r.price *ℤ abs position))) j (of_int (pos 0))
      else vwap

  unfoldable pub realized : PositionInfo W → MeClientResponse → W
  realized p r = add p.real_pnl (
      mul
        (mul (of_int (min_ℤ (to_i32 r.exec_qty) (abs p.position)))
          (sub (average p r) (of_int r.price)))
        (of_int (side_to_value r.side)))

  -- The profit of an open position at a price.
  unfoldable pub unrealized : (position : ℤ) → (open_vwap : ℕ → W) → (price : W) → W
  unrealized position open_vwap price =
      if ltb_ℤ (pos 0) position
      then mul (sub price (div (open_vwap buy_index) (of_int (abs position))))
          (of_int (abs position))
      else mul (sub (div (open_vwap sell_index) (of_int (abs position))) price)
          (of_int (abs position))

  -- Whether a fill opens or increases the position: `old_position * side_value >= 0`.
  abbrev pub increases : PositionInfo W → MeClientResponse → Bool
  increases p r = not (ltb_ℤ (p.position *ℤ side_to_value r.side) (pos 0))

  abbrev pub flat_vwap : (ℕ → W) → ℕ → W
  flat_vwap open_vwap =
      update (update open_vwap sell_index (of_int (pos 0))) buy_index (of_int (pos 0))

  -- The last part of `addFill`: the profits at the price of the fill.
  unfoldable pub marked : PositionInfo W → W → PositionInfo W
  marked p price =
      let vwap = (if is_flat p.position then flat_vwap p.open_vwap else p.open_vwap) in
      let unreal =
        (if is_flat p.position then of_int (pos 0) else unrealized p.position p.open_vwap price) in
      record p { open_vwap = vwap; unreal_pnl = unreal; total_pnl = add unreal p.real_pnl }

  unfoldable pub add_fill : PositionInfo W → MeClientResponse → PositionInfo W
  add_fill p r =
      let position = moved p.position (side_to_value r.side) r.exec_qty in
      let vwap = (if increases p r then opened_vwap p r else decreased_vwap p r position) in
      let real = (if increases p r then p.real_pnl else realized p r) in
      marked
        (record p {
          position = position;
          volume = to_qty (p.volume + r.exec_qty);
          open_vwap = vwap;
          real_pnl = real;
        })
        (of_int r.price)

  abbrev pub mid_price : Bbo → W
  mid_price bbo = mul (of_int (bbo.bid_price +ℤ bbo.ask_price)) half

  unfoldable pub update_bbo : PositionInfo W → Bbo → PositionInfo W
  update_bbo p bbo =
      let unreal = unrealized p.position p.open_vwap (mid_price bbo) in
      if not (is_flat p.position) && is_two_sided bbo
      then record p { bbo = some bbo; unreal_pnl = unreal; total_pnl = add unreal p.real_pnl }
      else record p { bbo = some bbo }

-- `ticker_position_`
abbrev pub PositionKeeper : Type 0 → Type 0
PositionKeeper W = ℕ → PositionInfo W

module _ {W : Type 0} ⦃d : Double W⦄ where
  abbrev pub get_position_info : PositionKeeper W → (ticker_id : ℕ) → Outcome (PositionInfo W)
  get_position_info k t = if ltb t me_max_tickers then ok (k t) else fault out_of_range

  unfoldable pub keeper_add_fill : PositionKeeper W → MeClientResponse → Outcome (PositionKeeper W)
  keeper_add_fill k r =
      and_then (get_position_info k r.ticker_id) λ p. ok (update k r.ticker_id (add_fill p r))

  unfoldable pub keeper_update_bbo :
      PositionKeeper W → (ticker_id : ℕ) → Bbo → Outcome (PositionKeeper W)
  keeper_update_bbo k t bbo =
      and_then (get_position_info k t) λ p. ok (update k t (update_bbo p bbo))
