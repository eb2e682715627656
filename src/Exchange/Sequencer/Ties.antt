-- ===== src/Exchange/Sequencer/Ties.antt =====
-- Requests with equal receive times. All requests of one TCP read share their receive time, and
-- `std::sort` may exchange them.
use nano_trade.Base.{
  ℕ, ◌≤◌, ◌<◌, ◌≡◌, arith, ltb, ltb_self, if◌then◌else◌, List, [], ◌∷◌, Bool-cases, inl, inr,
}
use nano_trade.Base.Lists.{All, All-map}
use mathlib.Core.List.{Perm}
use mathlib.Core.List.Perm
use nano_trade.Common.LfQueue.{LfQueue, pushes}
use nano_trade.Exchange.Messages.{MeClientRequest}
use nano_trade.Exchange.Sequencer.{RecvTimeClientRequest, IsAscending, Sort, sequence_and_publish}

abbrev Requests : Type 0
Requests = List RecvTimeClientRequest

-- An element goes behind those that compare equal.
insert_late : RecvTimeClientRequest → Requests → Requests
insert_late x [] = x ∷ []
insert_late x (y ∷ ys) = if ltb x.recv_time y.recv_time then x ∷ y ∷ ys else y ∷ insert_late x ys

sort_late : Requests → Requests
sort_late [] = []
sort_late (x ∷ xs) = insert_late x (sort_late xs)

insert_late-perm : (x : RecvTimeClientRequest) (ys : Requests) → Perm (insert_late x ys) (x ∷ ys)
unfolding insert_late
insert_late-perm x [] = Perm.refl (x ∷ [])
insert_late-perm x (y ∷ ys) = elim (Bool-cases (ltb x.recv_time y.recv_time)) [
  | inl e ↦ rw e (Perm.refl (x ∷ y ∷ ys))
  | inr e ↦ rw e (Perm.trans (Perm.cons y (insert_late-perm x ys)) (Perm.swap x y ys))
]

sort_late-perm : (xs : Requests) → Perm (sort_late xs) xs
unfolding sort_late
sort_late-perm [] = Perm.refl []
sort_late-perm (x ∷ xs) =
    Perm.trans (insert_late-perm x (sort_late xs)) (Perm.cons x (sort_late-perm xs))

insert_late-All :
    (t : ℕ) (x : RecvTimeClientRequest) (ys : Requests)
    → t ≤ x.recv_time
    → All (λ y. t ≤ y.recv_time) ys
    → All (λ y. t ≤ y.recv_time) (insert_late x ys)
unfolding insert_late
insert_late-All t x [] h a = (h, tt)
insert_late-All t x (y ∷ ys) h a = elim (Bool-cases (ltb x.recv_time y.recv_time)) [
  | inl e ↦ rw e (h, a)
  | inr e ↦ rw e (a.0, insert_late-All t x ys h a.1)
]

insert_late-IsAscending :
    (x : RecvTimeClientRequest) (ys : Requests) → IsAscending ys → IsAscending (insert_late x ys)
unfolding insert_late
insert_late-IsAscending x [] a = (tt, tt)
insert_late-IsAscending x (y ∷ ys) a = elim (Bool-cases (ltb x.recv_time y.recv_time)) [
  | inl e ↦
      let lt : x.recv_time < y.recv_time = ground arith in
      rw e ((omega arith, All-map ys (λ z h. omega arith) a.0), a)
  | inr e ↦
      let le : y.recv_time ≤ x.recv_time = ground arith in
      rw e (insert_late-All y.recv_time x ys le a.0, insert_late-IsAscending x ys a.1)
]

sort_late-IsAscending : (xs : Requests) → IsAscending (sort_late xs)
unfolding sort_late
sort_late-IsAscending [] = tt
sort_late-IsAscending (x ∷ xs) = insert_late-IsAscending x (sort_late xs) (sort_late-IsAscending xs)

-- A sort that keeps to what is promised of `std::sort`.
pub late_sort : Sort
late_sort = record {
  sort = sort_late;
  sort-perm = sort_late-perm;
  sort-IsAscending = sort_late-IsAscending;
}

-- Two pending requests with the same receive time can reach the queue in the opposite order, under
-- a sort that keeps every promise of `std::sort`.
pub published_reversed :
    (q : LfQueue MeClientRequest) (t : ℕ) (first second : MeClientRequest)
    → (std : Sort) × (sequence_and_publish std (record {
      incoming_requests = q;
      pending =
          record { recv_time = t; request = first }
          ∷ record { recv_time = t; request = second }
          ∷ [];
    })
        ≡ record { incoming_requests = pushes q (second ∷ first ∷ []); pending = [] })
unfolding sequence_and_publish late_sort sort_late insert_late
published_reversed q t first second = (late_sort, rw (ltb_self t))
