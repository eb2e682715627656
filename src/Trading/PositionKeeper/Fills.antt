-- ===== src/Trading/PositionKeeper/Fills.antt =====
-- The position and the volume after a run of fills.
use nano_trade.Base.{
  ℕ, Bool, ◌≤◌, ◌+◌, ◌-◌, ◌*◌, ◌%◌, ◌^◌, ◌<◌, ◌≡◌, arith, refl, sym, ap, subst, ◌∙◌, List, [], ◌∷◌,
}
use nano_trade.Base.Int.{ℤ, pos, negsuc, ◌+ℤ◌, ◌*ℤ◌, ◌≤ℤ◌, ◌<ℤ◌}
use nano_trade.Base.Double.{Double}
use nano_trade.Common.Types.{Side, side_to_value, to_qty}
use nano_trade.Exchange.Messages.{MeClientResponse}
use nano_trade.Trading.RiskManager.{to_i32, RiskCfg, RiskCheckResult, check_pre_trade_risk}
use nano_trade.Trading.RiskManager.Limits.{traded, IsWithin, allowed-IsWithin}
use nano_trade.Trading.PositionKeeper.{to_u32, moved, PositionInfo, add_fill, marked}

to_u32-to_i32 : (n : ℕ) → n < 2 ^ 32 → to_u32 (to_i32 n) ≡ n
to_u32-to_i32 n h = ground arith

to_u32-traded :
    (p : ℤ) (s : Side) (q : ℕ)
    → to_u32 (traded p s q) ≡ (to_u32 p + q * to_u32 (side_to_value s) % 2 ^ 32) % 2 ^ 32
unfolding ◌+ℤ◌ ◌*ℤ◌ side_to_value
to_u32-traded (pos n) Side.buy q = ground arith
to_u32-traded (pos n) Side.sell q = ground arith
to_u32-traded (pos n) Side.invalid q = ground arith
to_u32-traded (pos n) Side.max q = ground arith
to_u32-traded (negsuc n) Side.buy q = ground arith
to_u32-traded (negsuc n) Side.sell q = ground arith
to_u32-traded (negsuc n) Side.invalid q = ground arith
to_u32-traded (negsuc n) Side.max q = ground arith

moved-traded :
    (p : ℤ) (s : Side) (q : ℕ) → to_u32 (moved p (side_to_value s) q) ≡ to_u32 (traded p s q)
unfolding moved
moved-traded p s q = rw (to_u32-traded p s q) (to_u32-to_i32 _ (omega arith))

-- The range of an `int32_t`.
abbrev pub IsInt32 : ℤ → Type 0
IsInt32 p = (negsuc (2 ^ 31 - 1) ≤ℤ p) × (p <ℤ pos (2 ^ 31))

to_i32-to_u32 : (p : ℤ) → IsInt32 p → to_i32 (to_u32 p) ≡ p
to_i32-to_u32 p h = ground arith

moved-IsInt32 : (p : ℤ) (v : ℤ) (q : ℕ) → IsInt32 (moved p v q)
unfolding moved
moved-IsInt32 p v q = ground arith

to_u32-eq :
    (p q : ℤ) (s : Side) (n : ℕ)
    → to_u32 p ≡ to_u32 q
    → to_u32 (traded p s n) ≡ to_u32 (traded q s n)
to_u32-eq p q s n h = rw (to_u32-traded p s n, to_u32-traded q s n, h) refl

-- What a run of fills comes to: the shares bought less the shares sold, and the shares traded.
abbrev pub net : ℤ → List MeClientResponse → ℤ
net p [] = p
net p (r ∷ rs) = net (traded p r.side r.exec_qty) rs

abbrev pub shares : List MeClientResponse → ℕ
shares [] = 0
shares (r ∷ rs) = r.exec_qty + shares rs

module _ {W : Type 0} ⦃d : Double W⦄ where
  abbrev pub add_fills : PositionInfo W → List MeClientResponse → PositionInfo W
  add_fills p [] = p
  add_fills p (r ∷ rs) = add_fills (add_fill p r) rs

  add_fill-position :
      (p : PositionInfo W) (r : MeClientResponse)
      → (add_fill p r).position ≡ moved p.position (side_to_value r.side) r.exec_qty
  unfolding add_fill marked
  add_fill-position p r = refl

  add_fill-volume :
      (p : PositionInfo W) (r : MeClientResponse)
      → (add_fill p r).volume ≡ to_qty (p.volume + r.exec_qty)
  unfolding add_fill marked
  add_fill-volume p r = refl

  run_to_u32 :
      (p : PositionInfo W) (x : ℤ) (rs : List MeClientResponse)
      → to_u32 p.position ≡ to_u32 x
      → to_u32 (add_fills p rs).position ≡ to_u32 (net x rs)
  run_to_u32 p x [] h = h
  run_to_u32 p x (r ∷ rs) h = run_to_u32 (add_fill p r) (traded x r.side r.exec_qty) rs (
      ap to_u32 (add_fill-position p r)
      ∙ moved-traded p.position r.side r.exec_qty
      ∙ to_u32-eq p.position x r.side r.exec_qty h)

  run_IsInt32 :
      (p : PositionInfo W) (rs : List MeClientResponse)
      → IsInt32 p.position
      → IsInt32 (add_fills p rs).position
  run_IsInt32 p [] h = h
  run_IsInt32 p (r ∷ rs) h =
      run_IsInt32 (add_fill p r) rs
        (subst IsInt32 (sym (add_fill-position p r)) (moved-IsInt32 _ _ _))

  -- From a position of 32 bits, after any run of fills whose signed sum with the first position
  -- fits in 32 bits: the position is that sum, also when the position has wrapped round on the way.
  pub add_fills-net :
      (p : PositionInfo W) (rs : List MeClientResponse)
      → IsInt32 p.position
      → IsInt32 (net p.position rs)
      → (add_fills p rs).position ≡ net p.position rs
  add_fills-net p rs h k =
      sym (to_i32-to_u32 _ (run_IsInt32 p rs h))
      ∙ ap to_i32 (run_to_u32 p p.position rs refl)
      ∙ to_i32-to_u32 _ k

  -- After any run of fills the volume is the number of shares traded, modulo 2 ^ 32, on top of what
  -- it was.
  pub add_fills-shares :
      (p : PositionInfo W) (rs : List MeClientResponse)
      → to_qty p.volume ≡ p.volume
      → (add_fills p rs).volume ≡ to_qty (p.volume + shares rs)
  add_fills-shares p [] h = omega arith
  add_fills-shares p (r ∷ rs) h =
      add_fills-shares (add_fill p r) rs (rw (add_fill-volume p r) (omega arith))
      ∙ ap (λ v. to_qty (v + shares rs)) (add_fill-volume p r)
      ∙ omega arith

-- Fills of one order: they are all on its side.
abbrev pub IsOn : Side → List MeClientResponse → Type 0
IsOn side [] = Unit {0}
IsOn side (r ∷ rs) = (r.side ≡ side) × IsOn side rs

traded_twice : (p : ℤ) (s : Side) (a b : ℕ) → traded (traded p s a) s b ≡ traded p s (a + b)
unfolding ◌+ℤ◌ ◌*ℤ◌ side_to_value
traded_twice (pos n) s a b = ground arith
traded_twice (negsuc n) s a b = ground arith

traded_none : (p : ℤ) (s : Side) → traded p s 0 ≡ p
unfolding ◌+ℤ◌ ◌*ℤ◌ side_to_value
traded_none p s = ground arith

net-IsOn :
    (p : ℤ) (s : Side) (rs : List MeClientResponse) → IsOn s rs → net p rs ≡ traded p s (shares rs)
net-IsOn p s [] h = sym (traded_none p s)
net-IsOn p s (r ∷ rs) h =
    ap (λ x. net (traded p x r.exec_qty) rs) h.0
    ∙ net-IsOn (traded p s r.exec_qty) s rs h.1
    ∙ traded_twice p s r.exec_qty (shares rs)

IsWithin-IsInt32 : (p : ℤ) (limit : ℕ) → limit < 2 ^ 31 → IsWithin p limit → IsInt32 p
IsWithin-IsInt32 p limit h w = ground arith

module _ {W : Type 0} ⦃d : Double W⦄ where
  -- When the risk check allows an order, quantity and limit fit in 32 bits with their sign, and the
  -- position is within the limit: whatever fills come for that order, up to its quantity in all,
  -- the position that the keeper computes from them is within the limit.
  pub allowed-add_fills :
      (lt : W → W → Bool) (p : PositionInfo W) (cfg : RiskCfg W) (side : Side) (qty : ℕ)
      (rs : List MeClientResponse)
      → qty < 2 ^ 31
      → cfg.max_position < 2 ^ 31
      → IsWithin p.position cfg.max_position
      → check_pre_trade_risk lt
          (record { position = p.position; total_pnl = p.total_pnl; risk_cfg = cfg })
          side
          qty
        ≡ RiskCheckResult.allowed
      → IsOn side rs
      → shares rs ≤ qty
      → IsWithin (add_fills p rs).position cfg.max_position
  allowed-add_fills lt p cfg side qty rs q m w allowed on le =
      let e : net p.position rs ≡ traded p.position side (shares rs) =
        net-IsOn p.position side rs on in
      let within : IsWithin (net p.position rs) cfg.max_position =
        subst (λ x. IsWithin x cfg.max_position) (sym e)
          (allowed-IsWithin lt _ side qty (shares rs) q m allowed w le) in
      subst (λ x. IsWithin x cfg.max_position)
        (sym (add_fills-net p rs (IsWithin-IsInt32 _ _ m w) (IsWithin-IsInt32 _ _ m within))) within
