-- ===== src/Common/MemPool.antt =====
-- common/mem_pool.h and common/opt_mem_pool.h: a pool of blocks allocated up front. A pointer into
-- the pool is the block's index. The vector `store_` is a function of the index and a size.
pub mod Alloc
pub mod Count
pub mod Full
pub mod Opt
mod Tests
use nano_trade.Base.{
  ℕ, zero, suc, ◌+◌, Bool, true, false, ◌&&◌, ◌||◌, not, ◌==◌, ltb, if◌then◌else◌, update,
}
use nano_trade.Base.Outcome.{Outcome, ok, fault, fatal, out_of_fuel, and_then}

module _ (T : Type 0) where
  pub record ObjectBlock : Type 0 where
    pub object : T
    pub is_free : Bool

  pub record MemPool : Type 0 where
    pub store : ℕ → ObjectBlock
    pub size : ℕ
    pub next_free_index : ℕ

-- One step of the search: `++next_free_index_`, and 0 at the end.
abbrev pub next_index : ℕ → ℕ → ℕ
next_index size i = if i + 1 == size then 0 else i + 1

module _ {T : Type 0} where
  -- The constructor: every block holds a default object and is free.
  unfoldable pub init : T → ℕ → MemPool T
  init default num_elems = record {
    store = λ _. record { object = default; is_free = true };
    size = num_elems;
    next_free_index = 0;
  }

  -- The loop of `updateNextFreeIndex`, from index `i`. `asserts` says whether the build has the
  -- test "Memory Pool out of space": `MemPool` always, `OptMemPool` without NDEBUG.
  unfoldable pub search_free :
      (asserts : Bool) (fuel : ℕ) (store : ℕ → ObjectBlock T) (size initial i : ℕ) → Outcome ℕ
  search_free asserts zero store size initial i = fault out_of_fuel
  search_free asserts (suc fuel) store size initial i = elim (store i).is_free [
    | true ↦ ok i
    | false ↦ elim (asserts && (initial == next_index size i)) [
      | true ↦ fault fatal
      | false ↦ search_free asserts fuel store size initial (next_index size i)
    ]
  ]

  -- `size + 1` rounds of fuel are enough for a build that has the test.
  unfoldable pub update_next_free_index : Bool → MemPool T → Outcome (MemPool T)
  update_next_free_index asserts p =
      and_then (search_free asserts (p.size + 1) p.store p.size p.next_free_index p.next_free_index)
        λ i. ok (record p { next_free_index = i })

  abbrev pub taken : T → ObjectBlock T
  taken t = record { object = t; is_free = false }

  -- `allocate(args...)`: the block's index and the pool, with the object that the arguments build.
  unfoldable pub allocate : MemPool T → T → Outcome (ℕ × MemPool T)
  unfolding update_next_free_index
  allocate p t =
      if (p.store p.next_free_index).is_free
      then and_then
          (update_next_free_index true
            (record p { store = update p.store p.next_free_index (taken t) }))
          (λ q. ok (p.next_free_index, q))
      else fault fatal

  abbrev pub released : ObjectBlock T → ObjectBlock T
  released b = record b { is_free = true }

  -- `deallocate(elem)`: `i` is the difference of the pointers.
  unfoldable pub deallocate : MemPool T → ℕ → Outcome (MemPool T)
  deallocate p i =
      if ltb i p.size && not (p.store i).is_free
      then ok (record p { store = update p.store i (released (p.store i)) })
      else fault fatal

  -- `OptMemPool`: with NDEBUG no test is compiled in.
  unfoldable pub opt_allocate : Bool → MemPool T → T → Outcome (ℕ × MemPool T)
  unfolding update_next_free_index
  opt_allocate ndebug p t =
      if ndebug || (p.store p.next_free_index).is_free
      then and_then
          (update_next_free_index (not ndebug)
            (record p { store = update p.store p.next_free_index (taken t) }))
          (λ q. ok (p.next_free_index, q))
      else fault fatal

  unfoldable pub opt_deallocate : Bool → MemPool T → ℕ → Outcome (MemPool T)
  opt_deallocate ndebug p i =
      if ndebug || (ltb i p.size && not (p.store i).is_free)
      then ok (record p { store = update p.store i (released (p.store i)) })
      else fault fatal
