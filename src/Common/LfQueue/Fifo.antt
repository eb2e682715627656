-- ===== src/Common/LfQueue/Fifo.antt =====
-- While it does not run over, the ring is a FIFO queue.
use nano_trade.Base.{
  ℕ, zero, suc, ◌+◌, ◌-◌, ◌%◌, ◌^◌, ◌≤◌, ◌<◌, ◌≡◌, ◌≢◌, refl, arith, update, update-ne, none, some,
  List, [], ◌∷◌, ◌++◌, append-nil, append_assoc, ap, ap₂, ◌∙◌, sym, ==-ne, ==-self,
}
use native.Mathlib.Nat.{mod-eq_of_lt, mod-eq-sub-mod, mod-add-mod, add-zero}
use native.Mathlib.Numerals.{sub-one}
use native.Mathlib.Decide.{dec_lt}
use nano_trade.Base.Outcome.{ok, fault, fatal}
use nano_trade.Base.Lists.{length}
use nano_trade.Common.LfQueue.{LfQueue, size, push, pushes, get_next_to_read, update_read_index}

step-mod : (size r n : ℕ) → ((r + 1) % size + n) % size ≡ (r + suc n) % size
step-mod size r n = rw mod-add-mod (ap (λ k. k % size) (omega arith))

-- A slot fewer than `size` places ahead is another one.
ahead-ne : (size r d : ℕ) → r < size → suc d < size → (r + suc d) % size ≢ r
ahead-ne size r d h k = elim (dec_lt (r + suc d) size) [
  | yes p ↦ omega (arith, mod-eq_of_lt p)
  | no p ↦ omega (
    arith,
    mod-eq-sub-mod {n = r + suc d} {m = size} (omega arith),
    mod-eq_of_lt {n = r + suc d - size} {m = size} (omega arith),
  )
]

module _ {T : Type 0} where
  -- The `n` slots from index `r` on, round the ring.
  abbrev pub window : (ℕ → T) → ℕ → ℕ → ℕ → List T
  window store size r zero = []
  window store size r (suc n) = store r ∷ window store size ((r + 1) % size) n

  -- What waits to be read, oldest first.
  abbrev pub contents : LfQueue T → List T
  contents q = window q.store q.capacity q.next_read_index q.num_elements

  window-length : (store : ℕ → T) (size r n : ℕ) → length (window store size r n) ≡ n
  window-length store size r zero = refl
  window-length store size r (suc n) = ap suc (window-length store size ((r + 1) % size) n)

  pub contents-length : (q : LfQueue T) → length (contents q) ≡ q.num_elements
  contents-length q = window-length q.store q.capacity q.next_read_index q.num_elements

  pub record IsValid (q : LfQueue T) : Type 0 where
    pub small : q.capacity + 1 < 2 ^ 64
    pub read_in : q.next_read_index < q.capacity
    pub fits : q.num_elements ≤ q.capacity
    pub write_at : q.next_write_index ≡ (q.next_read_index + q.num_elements) % q.capacity

  window-snoc :
      (store : ℕ → T) (size r n : ℕ)
      → r < size
      → window store size r (suc n) ≡ window store size r n ++ store ((r + n) % size) ∷ []
  window-snoc store size r zero h = rw (add-zero, mod-eq_of_lt h)
  window-snoc store size r (suc n) h =
      ap (◌∷◌ (store r))
        (rw (← step-mod size r n) (window-snoc store size ((r + 1) % size) n (omega arith)))

  -- A write just past a window of fewer than `size` slots does not change it.
  window-update :
      (store : ℕ → T) (size : ℕ) (t : T) (r n k i : ℕ)
      → r < size
      → n + k < size
      → i ≡ (r + (n + k)) % size
      → window (update store i t) size r n ≡ window store size r n
  window-update store size t r zero k i h l e = refl
  window-update store size t r (suc n) k i h l e =
      ap₂ ◌∷◌
        (update-ne store i t r
          (λ same. ahead-ne size r (n + k) h (omega arith) (shift ∙ sym e ∙ sym same)))
        (window-update store size t ((r + 1) % size) n k i (omega arith) (omega arith)
          (e ∙ sym shift ∙ sym (step-mod size r (n + k))))
    where
      shift : (r + suc (n + k)) % size ≡ (r + (suc n + k)) % size
      shift = ap (λ j. j % size) (omega arith)

  window-nil : (store : ℕ → T) (size r n : ℕ) → window store size r n ≡ [] → n ≡ 0
  window-nil store size r zero e = refl
  window-nil store size r (suc n) e = absurd (cc)

  window-cons :
      (store : ℕ → T) (size r n : ℕ) (x : T) (xs : List T)
      → window store size r n ≡ x ∷ xs
      → (n ≢ 0) × (store r ≡ x) × (window store size ((r + 1) % size) (n - 1) ≡ xs)
  window-cons store size r zero x xs e = absurd (cc)
  window-cons store size r (suc n) x xs e = (omega arith, cc, rw (sub-one) (cc))

  -- A queue with a free slot takes the value in at its end, and stays valid.
  pub push-contents :
      (q : LfQueue T) (t : T)
      → IsValid q
      → q.num_elements < q.capacity
      → IsValid (push q t) × (contents (push q t) ≡ contents q ++ t ∷ [])
  unfolding push
  push-contents q t v h = (valid, grows)
    where
      open q use {store, capacity, next_read_index, next_write_index, num_elements}

      count : (num_elements + 1) % 2 ^ 64 ≡ suc num_elements
      count = omega arith

      valid : IsValid (push q t)
      valid = record {
        small = v.small;
        read_in = v.read_in;
        fits = rw count h;
        write_at = rw count (
            ap (λ k. (k + 1) % capacity) v.write_at
            ∙ mod-add-mod _ capacity 1
            ∙ ap (λ k. k % capacity) (omega arith));
      }

      grows : contents (push q t) ≡ contents q ++ t ∷ []
      grows = rw (
        count,
        window-snoc (update store next_write_index t) capacity next_read_index num_elements
            v.read_in,
        window-update store capacity t next_read_index num_elements 0 next_write_index v.read_in
            (omega arith) (v.write_at ∙ ap (λ k. k % capacity) (omega arith)),
        ← v.write_at,
        ==-self,
      )

  -- The reader of a valid queue that is not empty is shown the oldest value, and the step of its
  -- index leaves a valid queue of the rest.
  pub read-contents :
      (q : LfQueue T) (x : T) (xs : List T)
      → IsValid q
      → contents q ≡ x ∷ xs
      → (get_next_to_read q ≡ some x)
        × ((q' : LfQueue T) × (update_read_index q ≡ ok q') × IsValid q' × (contents q' ≡ xs))
  unfolding get_next_to_read update_read_index
  read-contents q x xs v h =
      let (ne, first, rest) =
        window-cons q.store q.capacity q.next_read_index q.num_elements x xs h in
      (
        rw (==-ne q.num_elements 0 ne, first),
        (
          record q {
            next_read_index = (q.next_read_index + 1) % q.capacity;
            num_elements = q.num_elements - 1;
          },
          rw (==-ne q.num_elements 0 ne),
          record {
            small = v.small;
            read_in = omega (arith, v.read_in);
            fits = omega (arith, v.fits);
            write_at =
                v.write_at
                ∙ ap (λ k. k % q.capacity) (omega arith)
                ∙ sym (step-mod q.capacity q.next_read_index (q.num_elements - 1));
          },
          rest,
        ),
      )

  -- An empty queue shows the reader a null pointer, and an advance of the reader ends the process.
  pub read-empty :
      (q : LfQueue T)
      → contents q ≡ []
      → (get_next_to_read q ≡ none) × (update_read_index q ≡ fault fatal)
  unfolding get_next_to_read update_read_index
  read-empty q e =
      let z = window-nil q.store q.capacity q.next_read_index q.num_elements e in
      (ground arith, ground arith)

  -- On a valid queue that is full the producer does not look for room: one value more replaces the
  -- oldest, so that the reader is shown the newest in its place, and the count exceeds the
  -- capacity.
  pub push-overrun :
      (q : LfQueue T) (t : T)
      → IsValid q
      → q.num_elements ≡ q.capacity
      → (get_next_to_read (push q t) ≡ some t) × (size (push q t) ≡ q.capacity + 1)
  unfolding push get_next_to_read size
  push-overrun q t v full =
      (rw (at_read, ==-self, count, ==-ne (suc capacity) 0 (omega arith)), count ∙ omega arith)
    where
      open q use {capacity, next_read_index, next_write_index}

      count : (q.num_elements + 1) % 2 ^ 64 ≡ suc capacity
      count = omega arith

      wraps : (next_read_index + capacity) % capacity ≡ next_read_index
      wraps =
          mod-eq-sub-mod {n = next_read_index + capacity} {m = capacity} (omega arith)
          ∙ ap (λ k. k % capacity) (omega arith)
          ∙ mod-eq_of_lt v.read_in

      at_read : next_write_index ≡ next_read_index
      at_read = v.write_at ∙ ap (λ k. (next_read_index + k) % capacity) full ∙ wraps

  pub push-counts :
      (q : LfQueue T) (t : T)
      → IsValid q
      → q.num_elements < q.capacity
      → ((push q t).num_elements ≡ q.num_elements + 1) × ((push q t).capacity ≡ q.capacity)
  unfolding push
  push-counts q t v h = (modulo, refl)
    where
      modulo : (q.num_elements + 1) % 2 ^ 64 ≡ q.num_elements + 1
      modulo = omega arith

  -- A run of pushes to a valid queue with room for all of them appends them in order, and the queue
  -- stays valid.
  pub pushes-contents :
      (q : LfQueue T) (ts : List T)
      → IsValid q
      → q.num_elements + length ts ≤ q.capacity
      → IsValid (pushes q ts) × (contents (pushes q ts) ≡ contents q ++ ts)
  unfolding pushes
  pushes-contents q [] v h = (v, sym (append-nil (contents q)))
  pushes-contents q (t ∷ ts) v h =
      let (v', e) = push-contents q t v (omega arith) in
      let c = push-counts q t v (omega arith) in
      let (w, e') = pushes-contents (push q t) ts v' (omega (arith, c.0, c.1)) in
      (w, e' ∙ rw e (append_assoc (contents q) (t ∷ []) ts))
