-- ===== src/Common/MemPool/Full.antt =====
-- What `allocate` and `deallocate` do to a pool, on every branch.
use nano_trade.Base.{
  ℕ, zero, suc, sym, ◌+◌, ◌≤◌, ◌<◌, ◌≡◌, ◌⊎◌, inl, inr, refl, true, false, arith, update, ap,
  update_self,
}
use nano_trade.Base.Outcome.{Outcome, ok, fault, fatal, and_then}
use nano_trade.Common.MemPool.{ObjectBlock, MemPool, allocate, deallocate, taken, released, init}
use nano_trade.Common.MemPool.Alloc.{search_free-total}
use nano_trade.Common.MemPool.Count.{
  count_free, free_count, count_free-take, count_free-release, count_free-eq-zero, count_free-pos,
}

module _ {T : Type 0} where
  -- The next block to hand out exists and is free.
  pub record IsReady (p : MemPool T) : Type 0 where
    pub in_range : p.next_free_index < p.size
    pub ready : (p.store p.next_free_index).is_free ≡ true

  -- `q` is `p` with the block that was next now holding `t`.
  pub record Allocated (p q : MemPool T) (t : T) : Type 0 where
    pub blocks : q.store ≡ update p.store p.next_free_index (taken t)
    pub same_size : q.size ≡ p.size
    pub ready : IsReady q
    pub one_less : free_count q + 1 ≡ free_count p

  module _ (p : MemPool T) (t : T) (v : IsReady p) where
    abbrev pub after : ℕ → ObjectBlock T
    after = update p.store p.next_free_index (taken t)

    pub after-busy : (after p.next_free_index).is_free ≡ false
    after-busy = ap (λ b. b.is_free) (update_self p.store p.next_free_index (taken t))

    pub after-count : count_free after p.size + 1 ≡ count_free p.store p.size
    after-count = count_free-take p.store p.size p.next_free_index (taken t) v.in_range v.ready refl

    -- On a pool with two free blocks, the next of which is free, `allocate` hands out that block
    -- with the object in it, changes no other block, and leaves a pool that is ready for the next
    -- call with one free block less.
    pub allocate-Allocated :
        2 ≤ free_count p
        → (q : MemPool T) × (allocate p t ≡ ok (p.next_free_index, q)) × Allocated p q t
    unfolding allocate
    allocate-Allocated two =
        elim (search_free-total after p.size p.next_free_index v.in_range after-busy) [
          | inl (k, e, hk, f) ↦ (
            record p { store = after; next_free_index = k },
            rw (v.ready, e),
            record {
              blocks = refl;
              same_size = refl;
              ready = record { in_range = hk; ready = f };
              one_less = after-count;
            },
          )
          | inr (e, busy) ↦
              absurd (omega (arith, after-count, count_free-eq-zero after p.size busy))
        ]

    -- On its last free block it ends the process.
    pub allocate-full : free_count p ≡ 1 → allocate p t ≡ fault fatal
    unfolding allocate
    allocate-full one =
        elim (search_free-total after p.size p.next_free_index v.in_range after-busy) [
          | inl (k, e, hk, f) ↦
              absurd (omega (arith, after-count, count_free-pos after p.size k hk f))
          | inr (e, busy) ↦ rw (v.ready, e)
        ]

-- A new pool: `n` blocks, of which `n - 1` can be allocated.
module _ {T : Type 0} (default t : T) where
  count_free-init : (n m : ℕ) → count_free (init default m).store n ≡ n
  unfolding count_free init
  count_free-init zero m = refl
  count_free-init (suc n) m = omega (arith, count_free-init n m)

  pub init-IsReady : (n : ℕ) → 1 ≤ n → IsReady (init default n)
  unfolding init
  init-IsReady n h = record { in_range = h; ready = refl }

  -- `k` calls of `allocate` in a row
  pub allocations : ℕ → MemPool T → Outcome (MemPool T)
  allocations zero p = ok p
  allocations (suc k) p = and_then (allocate p t) λ (i, q). allocations k q

  allocations-free :
      (k : ℕ) (p : MemPool T)
      → IsReady p
      → k + 1 ≤ free_count p
      → (q : MemPool T) × (allocations k p ≡ ok q) × IsReady q × (free_count q + k ≡ free_count p)
  unfolding allocations
  allocations-free zero p v h = (p, refl, v, omega arith)
  allocations-free (suc k) p v h =
      let (q, e, a) = allocate-Allocated p t v (omega arith) in
      let (r, e', w, c) = allocations-free k q a.ready (omega (arith, a.one_less)) in
      (r, rw e e', w, omega (arith, a.one_less, c))

  allocations-full :
      (k : ℕ) (p : MemPool T)
      → IsReady p
      → k + 1 ≡ free_count p
      → allocations (suc k) p ≡ fault fatal
  unfolding allocations
  allocations-full zero p v h = rw (allocate-full p t v (sym h))
  allocations-full (suc k) p v h =
      let (q, e, a) = allocate-Allocated p t v (omega arith) in
      rw e (allocations-full k q a.ready (omega (arith, a.one_less)))

  pub free_count-init : (n : ℕ) → free_count (init default n) ≡ n
  unfolding init
  free_count-init n = count_free-init n n

  -- A pool built with `n + 1` blocks serves any `k ≤ n` allocations, and fails on the next one,
  -- while one block is still free.
  pub init-capacity :
      (n k : ℕ)
      → k ≤ n
      → ((q : MemPool T) × (allocations k (init default (n + 1)) ≡ ok q) × IsReady q)
        × (allocations (suc n) (init default (n + 1)) ≡ fault fatal)
  init-capacity n k h =
      let v = init-IsReady (n + 1) (omega arith) in
      let (q, e, w, c) =
        allocations-free k (init default (n + 1)) v (omega (arith, free_count-init (n + 1))) in
      ((q, e, w), allocations-full n (init default (n + 1)) v (sym (free_count-init (n + 1))))

-- `deallocate`, on both branches.
module _ {T : Type 0} (p : MemPool T) (i : ℕ) where
  pub record Released (q : MemPool T) : Type 0 where
    pub blocks : q.store ≡ update p.store i (released (p.store i))
    pub same_size : q.size ≡ p.size
    pub same_next : q.next_free_index ≡ p.next_free_index
    pub one_more : free_count q ≡ free_count p + 1

  -- `deallocate` of a block that is in use frees exactly that block and keeps the object in it.
  pub deallocate-Released :
      i < p.size
      → (p.store i).is_free ≡ false
      → (q : MemPool T) × (deallocate p i ≡ ok q) × Released q
  unfolding deallocate
  deallocate-Released h busy = (
    record p { store = update p.store i (released (p.store i)) },
    ground arith,
    record {
      blocks = refl;
      same_size = refl;
      same_next = refl;
      one_more = count_free-release p.store p.size i (released (p.store i)) h busy refl;
    },
  )

  -- A block freed twice, or one that is not of the pool, ends the process.
  pub deallocate-fatal : (p.size ≤ i) ⊎ ((p.store i).is_free ≡ true) → deallocate p i ≡ fault fatal
  unfolding deallocate
  deallocate-fatal h = ground arith

  pub deallocate-IsReady : {q : MemPool T} → IsReady p → Released q → IsReady q
  deallocate-IsReady {q} v r = record {
    in_range = omega (arith, r.same_next, r.same_size);
    ready = rw (r.same_next, r.blocks) (ground (arith, v.ready));
  }
