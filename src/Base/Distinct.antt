-- ===== src/Base/Distinct.antt =====
-- Lists of distinct addresses below a bound.
use Prim.Native.Nat.{ℕ, zero, suc, ◌+◌, ◌≤◌, ◌<◌}
use mathlib.Core.Logic.{inl, inr}
use mathlib.Core.List.{List, [], ◌∷◌}
use native.Mathlib.Omega.{arith}
use nano_trade.Base.Tests.{◌==◌, if◌then◌else◌, Bool-cases}
use nano_trade.Base.Lists.{All, All-map, All-both, length, NotIn, Distinct}

-- The list without an address.
abbrev without : ℕ → List ℕ → List ℕ
without a [] = []
without a (x ∷ xs) = if x == a then xs else x ∷ without a xs

without-All : (P : ℕ → Type 0) (a : ℕ) (xs : List ℕ) → All P xs → All P (without a xs)
without-All P a [] p = tt
without-All P a (x ∷ xs) p = elim (Bool-cases (x == a)) [
  | inl e ↦ rw e p.1
  | inr e ↦ rw e (p.0, without-All P a xs p.1)
]

without-Distinct : (a : ℕ) (xs : List ℕ) → Distinct xs → Distinct (without a xs)
without-Distinct a [] d = tt
without-Distinct a (x ∷ xs) d = elim (Bool-cases (x == a)) [
  | inl e ↦ rw e d.1
  | inr e ↦ rw e (without-All _ a xs d.0, without-Distinct a xs d.1)
]

without-NotIn : (a : ℕ) (xs : List ℕ) → Distinct xs → NotIn a (without a xs)
without-NotIn a [] d = tt
without-NotIn a (x ∷ xs) d = elim (Bool-cases (x == a)) [
  | inl e ↦ rw e (All-map xs (λ y n f. n (ground (arith, e, f))) d.0)
  | inr e ↦ rw e ((λ f. ground (arith, e, f)), without-NotIn a xs d.1)
]

without-length : (a : ℕ) (xs : List ℕ) → length xs ≤ length (without a xs) + 1
without-length a [] = omega arith
without-length a (x ∷ xs) = elim (Bool-cases (x == a)) [
  | inl e ↦ rw e (omega arith)
  | inr e ↦ rw e (omega (arith, without-length a xs))
]

-- Distinct addresses below `n` are at most `n`.
pub Distinct-length : (n : ℕ) (xs : List ℕ) → Distinct xs → All (λ x. x < n) xs → length xs ≤ n
Distinct-length zero [] d b = omega arith
Distinct-length zero (x ∷ xs) d b = omega (arith, b.0)
Distinct-length (suc n) xs d b =
    let below : All (λ x. x < n) (without n xs) =
      All-both (without n xs) (λ x p q. omega (arith, p, q)) (without-All _ n xs b)
        (without-NotIn n xs d) in
    omega
      (arith, without-length n xs, Distinct-length n (without n xs) (without-Distinct n xs d) below)
