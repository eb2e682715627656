-- ===== src/Common/MemPool/Alloc.antt =====
-- The search of `updateNextFreeIndex` finds a free block if one is left, and ends by the assertion
-- if none is.
use nano_trade.Base.{
  ℕ, zero, suc, ◌+◌, ◌-◌, ◌≤◌, ◌<◌, ◌≡◌, ◌≢◌, ◌⊎◌, inl, inr, true, false, ◌==◌, arith, leb,
  if◌then◌else◌, Bool-cases, ◌∙◌, subst,
}
use nano_trade.Base.Outcome.{Outcome, ok, fault, fatal}
use nano_trade.Common.MemPool.{ObjectBlock, next_index, search_free}

-- The indices that the search still has to visit before it comes back to `initial`.
abbrev Ahead : ℕ → ℕ → ℕ → Type 0
Ahead initial i j =
    ((i < initial) × (i ≤ j) × (j < initial)) ⊎ ((initial < i) × ((i ≤ j) ⊎ (j < initial)))

-- How many of them there are.
abbrev rounds : ℕ → ℕ → ℕ → ℕ
rounds size initial i = if leb i initial then initial - i else size - i + initial

module _ {T : Type 0} (store : ℕ → ObjectBlock T) (size initial : ℕ)
    (in_range : initial < size) where
  abbrev pub Found : Outcome ℕ → Type 0
  Found r = (k : ℕ) × (r ≡ ok k) × (k < size) × ((store k).is_free ≡ true)

  abbrev NoneAhead : ℕ → Type 0
  NoneAhead i = (j : ℕ) → j < size → Ahead initial i j → (store j).is_free ≡ false

  search_free-hit :
      (fuel i : ℕ)
      → (store i).is_free ≡ true
      → search_free true (suc fuel) store size initial i ≡ ok i
  unfolding search_free
  search_free-hit fuel i e = rw (e, search_free)

  search_free-end :
      (fuel i : ℕ)
      → (store i).is_free ≡ false
      → (initial == next_index size i) ≡ true
      → search_free true (suc fuel) store size initial i ≡ fault fatal
  unfolding search_free
  search_free-end fuel i e back = rw (e, search_free) (rw back)

  search_free-next :
      (fuel i : ℕ)
      → (store i).is_free ≡ false
      → (initial == next_index size i) ≡ false
      → search_free true (suc fuel) store size initial i
        ≡ search_free true fuel store size initial (next_index size i)
  unfolding search_free
  search_free-next fuel i e on = rw (e, search_free) (rw on)

  -- Away from its start, the search finds a free block or passes all that is ahead and stops.
  search_free-cases :
      (fuel i : ℕ)
      → i < size
      → i ≢ initial
      → rounds size initial i ≤ fuel
      → Found (search_free true fuel store size initial i)
        ⊎ ((search_free true fuel store size initial i ≡ fault fatal) × NoneAhead i)
  search_free-cases zero i h ne r = absurd (ground arith)
  search_free-cases (suc fuel) i h ne r = elim (Bool-cases (store i).is_free) [
    | inl free ↦ inl (i, search_free-hit fuel i free, h, free)
    | inr busy ↦ elim (Bool-cases (initial == next_index size i)) [
      | inl back ↦ inr (
        search_free-end fuel i busy back,
        λ j hj a. subst (λ k. (store k).is_free ≡ false) (ground arith) busy,
      )
      | inr on ↦
          elim (search_free-cases fuel (next_index size i) (ground arith) (ground arith)
            (ground arith)) [
              | inl (k, e, hk, f) ↦ inl (k, search_free-next fuel i busy on ∙ e, hk, f)
              | inr (e, passed) ↦ inr (
                search_free-next fuel i busy on ∙ e,
                λ j hj a. elim (Bool-cases (j == i)) [
                  | inl same ↦ subst (λ k. (store k).is_free ≡ false) (ground arith) busy
                  | inr other ↦ passed j hj (ground arith)
                ],
              )
            ]
    ]
  ]

  abbrev pub AllBusy : Type 0
  AllBusy = (j : ℕ) → j < size → (store j).is_free ≡ false

  -- From a block in use the search finds a free block, unless there is none.
  pub search_free-total :
      (store initial).is_free ≡ false
      → Found (search_free true (size + 1) store size initial initial)
        ⊎ ((search_free true (size + 1) store size initial initial ≡ fault fatal) × AllBusy)
  search_free-total busy = subst Goal (omega arith) result
    where
      Goal : ℕ → Type 0
      Goal fuel =
          Found (search_free true fuel store size initial initial)
          ⊎ ((search_free true fuel store size initial initial ≡ fault fatal) × AllBusy)

      result : Goal (suc size)
      result = elim (Bool-cases (initial == next_index size initial)) [
        | inl back ↦ inr (
          search_free-end size initial busy back,
          λ j hj. subst (λ k. (store k).is_free ≡ false) (ground arith) busy,
        )
        | inr on ↦
            elim (search_free-cases size (next_index size initial) (ground arith) (ground arith)
              (ground arith)) [
                | inl (k, e, hk, f) ↦ inl (k, search_free-next size initial busy on ∙ e, hk, f)
                | inr (e, passed) ↦ inr (
                  search_free-next size initial busy on ∙ e,
                  λ j hj. elim (Bool-cases (j == initial)) [
                    | inl same ↦ subst (λ k. (store k).is_free ≡ false) (ground arith) busy
                    | inr other ↦ passed j hj (ground arith)
                  ],
                )
              ]
      ]
