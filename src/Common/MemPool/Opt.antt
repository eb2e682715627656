-- ===== src/Common/MemPool/Opt.antt =====
-- `OptMemPool` of common/opt_mem_pool.h, the pool whose tests are left out of a build with NDEBUG.
use nano_trade.Base.{
  ℕ, zero, suc, ◌+◌, ◌≤◌, ◌<◌, ◌≡◌, refl, Bool, true, false, arith, update, inl, inr,
}
use nano_trade.Base.Outcome.{ok, fault, out_of_fuel}
use nano_trade.Common.MemPool.{
  ObjectBlock, MemPool, next_index, search_free, allocate, opt_allocate, taken,
}
use nano_trade.Common.MemPool.Count.{free_count, count_free-eq-zero, count_free-pos}
use nano_trade.Common.MemPool.Alloc.{search_free-total}
use nano_trade.Common.MemPool.Full.{IsReady, after-busy, after-count}

module _ {T : Type 0} (store : ℕ → ObjectBlock T) (size initial : ℕ) where
  -- Where the search with the test finds a block, the search without it finds the same.
  search_free-agrees :
      (fuel i k : ℕ)
      → search_free true fuel store size initial i ≡ ok k
      → search_free false fuel store size initial i ≡ ok k
  unfolding search_free
  search_free-agrees zero i k e = ground arith
  search_free-agrees (suc fuel) i k e =
      ground (arith, search_free-agrees fuel (next_index size i) k)

  -- With every block in use the search without the test goes on for ever.
  search_free-spins :
      (fuel i : ℕ)
      → ((j : ℕ) → j < size → (store j).is_free ≡ false)
      → i < size
      → search_free false fuel store size initial i ≡ fault out_of_fuel
  unfolding search_free
  search_free-spins zero i busy h = refl
  search_free-spins (suc fuel) i busy h =
      rw (busy i h, search_free) (search_free-spins fuel (next_index size i) busy (ground arith))

module _ {T : Type 0} (p : MemPool T) (t : T) where
  -- While two blocks are free, one of them the next, `OptMemPool::allocate` does what
  -- `MemPool::allocate` does, whether or not its tests are compiled in.
  pub opt_allocate-eq-allocate :
      (ndebug : Bool) → IsReady p → 2 ≤ free_count p → opt_allocate ndebug p t ≡ allocate p t
  unfolding opt_allocate allocate
  opt_allocate-eq-allocate ndebug v h =
      elim (search_free-total after p.size p.next_free_index v.in_range (after-busy p t v)) [
        | inl (k, e, hk, f) ↦
            by_build ndebug k e
              (search_free-agrees after p.size p.next_free_index (p.size + 1) p.next_free_index k e)
        | inr (e, busy) ↦
            absurd (omega (arith, after-count p t v, count_free-eq-zero after p.size busy))
      ]
    where
      after : ℕ → ObjectBlock T
      after = update p.store p.next_free_index (taken t)

      by_build :
          (b : Bool) (k : ℕ)
          → search_free true (p.size + 1) after p.size p.next_free_index p.next_free_index ≡ ok k
          → search_free false (p.size + 1) after p.size p.next_free_index p.next_free_index ≡ ok k
          → opt_allocate b p t ≡ allocate p t
      by_build true k e e' = rw (v.ready, e, e')
      by_build false k e e' = rw (v.ready, e)

  -- When the next block is the last free one, the search of an allocation in a build with NDEBUG
  -- finds nothing: it is out of fuel, however much it is given.
  pub opt_allocate-spins :
      (fuel : ℕ)
      → IsReady p
      → free_count p ≡ 1
      → search_free false fuel
          (update p.store p.next_free_index (taken t))
          p.size
          p.next_free_index
          p.next_free_index
        ≡ fault out_of_fuel
  opt_allocate-spins fuel v one =
      elim (search_free-total after p.size p.next_free_index v.in_range (after-busy p t v)) [
        | inl (k, e, hk, f) ↦
            absurd (omega (arith, after-count p t v, count_free-pos after p.size k hk f))
        | inr (e, busy) ↦
            search_free-spins after p.size p.next_free_index fuel p.next_free_index busy v.in_range
      ]
    where
      after : ℕ → ObjectBlock T
      after = update p.store p.next_free_index (taken t)
