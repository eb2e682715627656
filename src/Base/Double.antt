-- ===== src/Base/Double.antt =====
-- What the code does with a `double`: the operations are parameters, collected in a record, and
-- nothing is assumed of their rounding.
use Prim.Native.Nat.{◌*◌, ◌/◌}
use mathlib.Core.Bool.{Bool, false, not}
use mathlib.Core.Option.{Option, none, some}
use nano_trade.Base.Int.{ℤ, pos, pos_part, neg_part, sub_ℕ, ltb_ℤ, eqb_ℤ, ◌+ℤ◌, ◌-ℤ◌, ◌*ℤ◌}

-- `of_int` is the conversion from an integer; `half` is the constant 0.5 and `nan` the quiet NaN.
pub record Double {ℓ} (W : Type ℓ) : Type ℓ where
  pub add : W → W → W
  pub sub : W → W → W
  pub mul : W → W → W
  pub div : W → W → W
  pub of_int : ℤ → W
  pub half : W
  pub nan : W
  pub lt : W → W → Bool
  pub le : W → W → Bool
  pub eq : W → W → Bool

module _ {ℓ} {W : Type ℓ} ⦃d : Double W⦄ where
  abbrev pub add : W → W → W
  add = d.add

  abbrev pub sub : W → W → W
  sub = d.sub

  abbrev pub mul : W → W → W
  mul = d.mul

  abbrev pub div : W → W → W
  div = d.div

  abbrev pub of_int : ℤ → W
  of_int = d.of_int

  abbrev pub half : W
  half = d.half

  abbrev pub nan : W
  nan = d.nan

  abbrev pub lt : W → W → Bool
  lt = d.lt

  abbrev pub le : W → W → Bool
  le = d.le

  abbrev pub eq : W → W → Bool
  eq = d.eq

-- Whole hundredths, with `none` for NaN, for running the code on concrete numbers.
abbrev pub Hundredths : Type 0
Hundredths = Option ℤ

abbrev lift : (ℤ → ℤ → ℤ) → Hundredths → Hundredths → Hundredths
lift f (some a) (some b) = some (f a b)
lift f (some a) none = none
lift f none y = none

abbrev lift_test : (ℤ → ℤ → Bool) → Hundredths → Hundredths → Bool
lift_test f (some a) (some b) = f a b
lift_test f (some a) none = false
lift_test f none y = false

abbrev product : ℤ → ℤ → ℤ
product a b = sub_ℕ (pos_part (a *ℤ b) / 100) (neg_part (a *ℤ b) / 100)

-- For a positive divisor.
abbrev quotient : ℤ → ℤ → ℤ
quotient a b = sub_ℕ (pos_part a * 100 / pos_part b) (neg_part a * 100 / pos_part b)

abbrev pub hundredths : Double Hundredths
hundredths = record {
  add = lift ◌+ℤ◌;
  sub = lift ◌-ℤ◌;
  mul = lift product;
  div = lift quotient;
  of_int = λ n. some (n *ℤ pos 100);
  half = some (pos 50);
  nan = none;
  lt = lift_test ltb_ℤ;
  le = lift_test (λ a b. not (ltb_ℤ b a));
  eq = lift_test eqb_ℤ;
}
