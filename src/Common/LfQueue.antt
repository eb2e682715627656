-- ===== src/Common/LfQueue.antt =====
-- common/lf_queue.h: the ring of `store_.size()` slots behind every link between two threads. The
-- vector is a function of the index and a size; a pointer to a slot is its index.
pub mod Fifo
mod Tests
use nano_trade.Base.{
  ℕ, ◌+◌, ◌-◌, ◌%◌, ◌^◌, ◌==◌, not, if◌then◌else◌, update, Option, none, some, List, [], ◌∷◌,
}
use nano_trade.Base.Outcome.{Outcome, ok, fault, fatal, and_then}

pub record LfQueue (T : Type 0) : Type 0 where
  pub store : ℕ → T
  pub capacity : ℕ
  pub next_write_index : ℕ
  pub next_read_index : ℕ
  pub num_elements : ℕ

module _ {T : Type 0} where
  -- The constructor; `default` is the value `T()`.
  unfoldable pub init : T → ℕ → LfQueue T
  init default num_elems = record {
    store = λ _. default;
    capacity = num_elems;
    next_write_index = 0;
    next_read_index = 0;
    num_elements = 0;
  }

  unfoldable pub size : LfQueue T → ℕ
  size q = q.num_elements

  unfoldable pub get_next_to_write_to : LfQueue T → ℕ
  get_next_to_write_to q = q.next_write_index

  -- The caller's write through the pointer, `*next_write = t`.
  unfoldable pub write_slot : LfQueue T → ℕ → T → LfQueue T
  write_slot q i t = record q { store = update q.store i t }

  unfoldable pub update_write_index : LfQueue T → LfQueue T
  update_write_index q = record q {
    next_write_index = (q.next_write_index + 1) % q.capacity;
    num_elements = (q.num_elements + 1) % 2 ^ 64;
  }

  -- What the pointer leads to; `none` is the null pointer.
  unfoldable pub get_next_to_read : LfQueue T → Option T
  unfolding size
  get_next_to_read q = if size q == 0 then none else some (q.store q.next_read_index)

  -- The index moves before the test of the count.
  unfoldable pub update_read_index : LfQueue T → Outcome (LfQueue T)
  update_read_index q =
      if not (q.num_elements == 0)
      then ok (record q {
        next_read_index = (q.next_read_index + 1) % q.capacity;
        num_elements = q.num_elements - 1;
      })
      else fault fatal

  -- The three steps in which every producer writes.
  unfoldable pub push : LfQueue T → T → LfQueue T
  unfolding get_next_to_write_to write_slot update_write_index
  push q t = update_write_index (write_slot q (get_next_to_write_to q) t)

  -- A producer's loop over what it has to write.
  unfoldable pub pushes : LfQueue T → List T → LfQueue T
  pushes q [] = q
  pushes q (t ∷ ts) = pushes (push q t) ts
