-- ===== src/Common/MemPool/Tests.antt =====
-- The pools' theorems at concrete pools.
use nano_trade.Base.{ℕ, ◌≡◌, refl, arith, true, false, update, suc, inr, ◌==◌, ◌+◌}
use nano_trade.Base.Outcome.{ok, fault, fatal, out_of_fuel}
use nano_trade.Common.MemPool.{
  MemPool, init, allocate, deallocate, opt_allocate, search_free, taken,
}
use nano_trade.Common.MemPool.Full.{
  IsReady, Allocated, allocations, allocate-Allocated, allocate-full, init-capacity,
  deallocate-fatal,
}
use nano_trade.Common.MemPool.Opt.{opt_allocate-eq-allocate, opt_allocate-spins}
use nano_trade.Common.MemPool.Count.{count_free}

-- Three free blocks.
abbrev three : MemPool ℕ
three = record { store = λ _. record { object = 0; is_free = true }; size = 3; next_free_index = 1 }

-- Only the block with index 1 is free.
abbrev one : MemPool ℕ
one = record { store = λ i. record { object = i; is_free = i == 1 }; size = 3; next_free_index = 1 }

three-IsReady : IsReady three
three-IsReady = record { in_range = omega arith; ready = refl }

one-IsReady : IsReady one
one-IsReady = record { in_range = omega arith; ready = refl }

allocate-Allocated_example : (q : MemPool ℕ) × (allocate three 7 ≡ ok (1, q)) × Allocated three q 7
unfolding count_free
allocate-Allocated_example = allocate-Allocated three 7 three-IsReady (omega arith)

allocate-full_example : allocate one 7 ≡ fault fatal
unfolding count_free
allocate-full_example = allocate-full one 7 one-IsReady refl

init-capacity_example :
    ((q : MemPool ℕ) × (allocations {T = ℕ} 0 7 2 (init 0 (3 + 1)) ≡ ok q) × IsReady q)
    × (allocations {T = ℕ} 0 7 (suc 3) (init 0 (3 + 1)) ≡ fault fatal)
init-capacity_example = init-capacity 0 7 3 2 (omega arith)

deallocate-fatal_example : deallocate one 1 ≡ fault fatal
deallocate-fatal_example = deallocate-fatal one 1 (inr refl)

opt_allocate-eq-allocate_example : opt_allocate true three 7 ≡ allocate three 7
unfolding count_free
opt_allocate-eq-allocate_example = opt_allocate-eq-allocate three 7 true three-IsReady (omega arith)

opt_allocate-spins_example :
    search_free false 1000 (update one.store 1 (taken 7)) 3 1 1 ≡ fault out_of_fuel
unfolding count_free
opt_allocate-spins_example = opt_allocate-spins one 7 1000 one-IsReady refl
