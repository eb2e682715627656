-- ===== src/Common/LfQueue/Tests.antt =====
-- The queue's theorems at concrete queues.
use nano_trade.Base.{ℕ, ◌≡◌, refl, arith, some, [], ◌∷◌, ◌++◌, ◌+◌, ◌*◌}
use nano_trade.Common.LfQueue.{LfQueue, push, pushes, size, get_next_to_read}
use nano_trade.Common.LfQueue.Fifo.{IsValid, contents, pushes-contents, push-overrun}

-- Two elements, 30 and 0, the second behind the wrap of the ring.
abbrev wrapped : LfQueue ℕ
wrapped = record {
  store = λ i. i * 10;
  capacity = 4;
  next_write_index = 1;
  next_read_index = 3;
  num_elements = 2;
}

-- A full ring.
abbrev full : LfQueue ℕ
full = record wrapped { next_write_index = 3; num_elements = 4 }

wrapped-IsValid : IsValid wrapped
wrapped-IsValid = record {
  small = omega arith;
  read_in = omega arith;
  fits = omega arith;
  write_at = refl;
}

full-IsValid : IsValid full
full-IsValid = record {
  small = omega arith;
  read_in = omega arith;
  fits = omega arith;
  write_at = refl;
}

pushes-contents_example :
    IsValid (pushes wrapped (5 ∷ 6 ∷ []))
    × (contents (pushes wrapped (5 ∷ 6 ∷ [])) ≡ contents wrapped ++ 5 ∷ 6 ∷ [])
pushes-contents_example = pushes-contents wrapped (5 ∷ 6 ∷ []) wrapped-IsValid (omega arith)

push-overrun_example : (get_next_to_read (push full 9) ≡ some 9) × (size (push full 9) ≡ 4 + 1)
push-overrun_example = push-overrun full 9 full-IsValid refl
