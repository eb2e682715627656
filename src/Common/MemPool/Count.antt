-- ===== src/Common/MemPool/Count.antt =====
-- How many blocks of a pool are free.
use nano_trade.Base.{
  ℕ, zero, suc, ◌+◌, ◌≤◌, ◌<◌, ◌≡◌, true, false, ◌==◌, arith, if◌then◌else◌, update, refl,
  Bool-cases, inl, inr,
}
use nano_trade.Common.MemPool.{ObjectBlock, MemPool}

module _ {T : Type 0} where
  unfoldable pub count_free : (ℕ → ObjectBlock T) → ℕ → ℕ
  count_free store zero = 0
  count_free store (suc n) = count_free store n + (if (store n).is_free then 1 else 0)

  abbrev pub free_count : MemPool T → ℕ
  free_count p = count_free p.store p.size

  pub count_free-update_above :
      (store : ℕ → ObjectBlock T) (n i : ℕ) (b : ObjectBlock T)
      → n ≤ i
      → count_free (update store i b) n ≡ count_free store n
  unfolding count_free
  count_free-update_above store zero i b h = refl
  count_free-update_above store (suc n) i b h = ground (arith, count_free-update_above store n i b)

  -- A free block that is taken leaves one less.
  pub count_free-take :
      (store : ℕ → ObjectBlock T) (n i : ℕ) (b : ObjectBlock T)
      → i < n
      → (store i).is_free ≡ true
      → b.is_free ≡ false
      → count_free (update store i b) n + 1 ≡ count_free store n
  unfolding count_free
  count_free-take store zero i b h f u = absurd (omega arith)
  count_free-take store (suc n) i b h f u = elim (Bool-cases (n == i)) [
    | inl here ↦ ground (arith, count_free-update_above store n i b)
    | inr there ↦ ground (arith, count_free-take store n i b)
  ]

  -- A block in use that is given back makes one more.
  pub count_free-release :
      (store : ℕ → ObjectBlock T) (n i : ℕ) (b : ObjectBlock T)
      → i < n
      → (store i).is_free ≡ false
      → b.is_free ≡ true
      → count_free (update store i b) n ≡ count_free store n + 1
  unfolding count_free
  count_free-release store zero i b h f u = absurd (omega arith)
  count_free-release store (suc n) i b h f u = elim (Bool-cases (n == i)) [
    | inl here ↦ ground (arith, count_free-update_above store n i b)
    | inr there ↦ ground (arith, count_free-release store n i b)
  ]

  pub count_free-eq-zero :
      (store : ℕ → ObjectBlock T) (n : ℕ)
      → ((j : ℕ) → j < n → (store j).is_free ≡ false)
      → count_free store n ≡ 0
  unfolding count_free
  count_free-eq-zero store zero busy = refl
  count_free-eq-zero store (suc n) busy =
      ground (arith, busy n, count_free-eq-zero store n (λ j h. busy j (omega arith)))

  pub count_free-pos :
      (store : ℕ → ObjectBlock T) (n j : ℕ)
      → j < n
      → (store j).is_free ≡ true
      → 1 ≤ count_free store n
  unfolding count_free
  count_free-pos store zero j h f = absurd (omega arith)
  count_free-pos store (suc n) j h f = elim (Bool-cases (n == j)) [
    | inl here ↦ ground arith
    | inr there ↦ ground (arith, count_free-pos store n j)
  ]
