-- ===== src/Exchange/Book/Levels.antt =====
-- The price levels of `MEOrderBook`: `priceToIndex`, `getOrdersAtPrice`, `addOrdersAtPrice`,
-- `removeOrdersAtPrice` and `getNextPriority`.
use nano_trade.Base.{
  ℕ, zero, suc, ◌+◌, ◌^◌, Bool, true, false, ◌&&◌, ◌||◌, not, ◌==◌, leb, same_ptr, if◌then◌else◌,
  update, Option, none, some,
}
use nano_trade.Base.Int.{ℤ, pos, pos_part, neg_part, ltb_ℤ, ◌-ℤ◌}
use nano_trade.Base.Outcome.{
  ok, fault, fatal, overflow, out_of_fuel, pure, abort, ◌>>=◌, ◌>>◌, get, put, deref,
}
use nano_trade.Common.Types.{Side, is_buy, is_sell, me_max_price_levels, to_u64}
use nano_trade.Common.MemPool.{deallocate}
use nano_trade.Exchange.Book.{
  Book, load_level, load_order, set_prev_entry, set_next_entry, best_by_price, set_best_by_price,
}

-- The difference of two `int64_t`, which must fit in one.
unfoldable pub sub_i64 : ℤ → ℤ → Book ℤ
unfolding ◌-ℤ◌
sub_i64 a b =
    let d = a -ℤ b in
    if leb (2 ^ 63) (pos_part d) || leb (2 ^ 63 + 1) (neg_part d) then abort overflow else pure d

-- An index outside the window of the book ends the process.
unfoldable pub price_to_index : ℤ → Book ℕ
unfolding sub_i64
price_to_index price = do
  b ← get
  idx ← sub_i64 price b.base_price
  if ltb_ℤ idx (pos 0) || leb me_max_price_levels (pos_part idx)
      then abort fatal
      else pure (pos_part idx)

unfoldable pub get_orders_at_price : ℤ → Book (Option ℕ)
get_orders_at_price price = do i ← price_to_index price; b ← get; pure (b.price_orders_at_price i)

-- `price_orders_at_price_.at(priceToIndex(price)) = v`
unfoldable pub set_orders_at_price : ℤ → Option ℕ → Book (Unit {0})
set_orders_at_price price v = do
  i ← price_to_index price
  b ← get
  put (record b { price_orders_at_price = update b.price_orders_at_price i v })

-- The test of `add_after`: the level of price `p` comes after that of price `q` on its side.
abbrev pub comes_after : Side → ℤ → ℤ → Bool
comes_after side p q = (is_sell side && ltb_ℤ q p) || (is_buy side && ltb_ℤ p q)

-- `while (add_after && target != best_orders_by_price)`, with the levels that it reads. The fuel
-- bounds the levels passed.
unfoldable pub walk :
    (fuel : ℕ) (side : Side) (price : ℤ) (best target : ℕ) (add_after : Bool) → Book (ℕ × Bool)
walk zero side price best target add_after = abort out_of_fuel
walk (suc fuel) side price best target add_after =
    if add_after && not (target == best)
    then (do
      level ← load_level target
      if comes_after side price level.price
          then (do next ← deref level.next_entry; walk fuel side price best next true)
          else pure (target, false))
    else pure (target, add_after)

-- The level before or after which the new one goes, and which of the two.
unfoldable pub find_target : Side → ℤ → ℕ → Book (ℕ × Bool)
unfolding walk
find_target side price best = do
  b ← get
  first ← load_level best
  if comes_after side price first.price
      then (do
        target ← deref first.next_entry
        level ← load_level target
        walk (b.orders_at_price_pool.size + 1) side price best target
            (comes_after side price level.price))
      else walk (b.orders_at_price_pool.size + 1) side price best best false

unfoldable pub insert_after : (new target : ℕ) → Book (Unit {0})
insert_after new target = do
  set_prev_entry new (some target)
  level ← load_level target
  next ← deref level.next_entry
  set_prev_entry next (some new)
  level' ← load_level target
  set_next_entry new level'.next_entry
  set_next_entry target (some new)

unfoldable pub insert_before : (new target : ℕ) → Book (Unit {0})
insert_before new target = do
  level ← load_level target
  set_prev_entry new level.prev_entry
  set_next_entry new (some target)
  level' ← load_level target
  prev ← deref level'.prev_entry
  set_next_entry prev (some new)
  set_prev_entry target (some new)

-- The new level becomes the best one of its side.
unfoldable pub replace_best : Side → (new target best : ℕ) → Book (Unit {0})
replace_best side new target best = do
  level ← load_level target
  set_next_entry target
      (if same_ptr level.next_entry (some best) then some new else level.next_entry)
  set_best_by_price side (some new)

-- A side that has levels already, with its best one.
unfoldable pub place_level : (new best : ℕ) → Book (Unit {0})
place_level new best = do
  level ← load_level new
  (target, add_after) ← find_target level.side level.price best
  first ← load_level best
  if add_after
      then (if target == best
          then (do last ← deref first.prev_entry; insert_after new last)
          else insert_after new target)
      else (do
        insert_before new target
        if comes_after level.side first.price level.price
            then replace_best level.side new target best
            else pure tt)

-- A side and its best level, where it has one.
unfoldable pub add_to_side : Side → ℕ → Option ℕ → Book (Unit {0})
add_to_side side new none = do
  set_best_by_price side (some new)
  set_next_entry new (some new)
  set_prev_entry new (some new)
add_to_side side new (some best) = place_level new best

unfoldable pub add_orders_at_price : ℕ → Book (Unit {0})
add_orders_at_price new = do
  level ← load_level new
  set_orders_at_price level.price (some new)
  b ← get
  add_to_side level.side new (best_by_price b level.side)

-- The level is taken out of its ring.
unfoldable pub unlink_level : Side → ℕ → Book (Unit {0})
unlink_level side l = do
  b ← get
  level ← load_level l
  if same_ptr level.next_entry (some l) then set_best_by_price side none else (do
    prev ← deref level.prev_entry
    set_next_entry prev level.next_entry
    level' ← load_level l
    next ← deref level'.next_entry
    set_prev_entry next level'.prev_entry
    level'' ← load_level l
    if same_ptr (some l) (best_by_price b side)
        then set_best_by_price side level''.next_entry
        else pure tt)

unfoldable pub free_level : ℕ → Book (Unit {0})
free_level l b = elim (deallocate b.orders_at_price_pool l) [
  | ok pool ↦ ok (tt, record b { orders_at_price_pool = pool })
  | fault e ↦ fault e
]

unfoldable pub remove_orders_at_price : Side → ℤ → Book (Unit {0})
remove_orders_at_price side price = do
  found ← get_orders_at_price price
  l ← deref found
  unlink_level side l
  set_next_entry l none
  set_prev_entry l none
  set_orders_at_price price none
  free_level l

unfoldable pub get_next_priority : ℤ → Book ℕ
get_next_priority price = do
  found ← get_orders_at_price price
  elim found [
    | none ↦ pure 1
    | some l ↦ (do
      level ← load_level l
      first ← deref level.first_me_order
      head ← load_order first
      last ← deref head.prev_order
      tail ← load_order last
      pure (to_u64 (tail.priority + 1)))
  ]
