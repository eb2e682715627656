-- ===== src/Exchange/Book/Links.antt =====
-- What the single writes of `MEOrderBook` through its pointers change, and what they leave.
use nano_trade.Base.{ℕ, ◌≡◌, arith, fun_ext, update, Option, none, Bool}
use nano_trade.Base.Ring.{Links}
use nano_trade.Base.Linked.{Linked}
use nano_trade.Exchange.Book.{
  MeOrder, MeOrdersAtPrice, Orders, Levels, order, level, put_prev_order, put_next_order,
  put_prev_entry, put_next_entry,
}

abbrev pub order_next : Orders → Links
order_next p o = (order p o).next_order

abbrev pub order_prev : Orders → Links
order_prev p o = (order p o).prev_order

-- An order without its links.
abbrev pub order_info : Orders → ℕ → MeOrder
order_info p o = record (order p o) { prev_order = none; next_order = none }

abbrev pub order_free : Orders → ℕ → Bool
order_free p o = (p.store o).is_free

abbrev pub level_next : Levels → Links
level_next p l = (level p l).next_entry

abbrev pub level_prev : Levels → Links
level_prev p l = (level p l).prev_entry

abbrev pub level_info : Levels → ℕ → MeOrdersAtPrice
level_info p l = record (level p l) { prev_entry = none; next_entry = none }

abbrev pub level_free : Levels → ℕ → Bool
level_free p l = (p.store l).is_free

module _ (p : Orders) (o : ℕ) (v : Option ℕ) where
  pub next-put_next : order_next (put_next_order p o v) ≡ update (order_next p) o v
  unfolding put_next_order
  next-put_next = fun_ext λ j. ground arith

  pub prev-put_next : order_prev (put_next_order p o v) ≡ order_prev p
  unfolding put_next_order
  prev-put_next = fun_ext λ j. ground arith

  pub next-put_prev : order_next (put_prev_order p o v) ≡ order_next p
  unfolding put_prev_order
  next-put_prev = fun_ext λ j. ground arith

  pub prev-put_prev : order_prev (put_prev_order p o v) ≡ update (order_prev p) o v
  unfolding put_prev_order
  prev-put_prev = fun_ext λ j. ground arith

  pub info-put_next : order_info (put_next_order p o v) ≡ order_info p
  unfolding put_next_order
  info-put_next = fun_ext λ j. ground arith

  pub info-put_prev : order_info (put_prev_order p o v) ≡ order_info p
  unfolding put_prev_order
  info-put_prev = fun_ext λ j. ground arith

  pub free-put_next : order_free (put_next_order p o v) ≡ order_free p
  unfolding put_next_order
  free-put_next = fun_ext λ j. ground arith

  pub free-put_prev : order_free (put_prev_order p o v) ≡ order_free p
  unfolding put_prev_order
  free-put_prev = fun_ext λ j. ground arith

-- The orders as linked memory.
abbrev pub me_orders : Linked Orders (ℕ → MeOrder)
me_orders = record {
  next = order_next;
  prev = order_prev;
  info = order_info;
  put_next = put_next_order;
  put_prev = put_prev_order;
  next-put_next = next-put_next;
  next-put_prev = next-put_prev;
  prev-put_next = prev-put_next;
  prev-put_prev = prev-put_prev;
  info-put_next = info-put_next;
  info-put_prev = info-put_prev;
}

module _ (p : Levels) (l : ℕ) (v : Option ℕ) where
  pub level_next-put_next : level_next (put_next_entry p l v) ≡ update (level_next p) l v
  unfolding put_next_entry
  level_next-put_next = fun_ext λ j. ground arith

  pub level_prev-put_next : level_prev (put_next_entry p l v) ≡ level_prev p
  unfolding put_next_entry
  level_prev-put_next = fun_ext λ j. ground arith

  pub level_next-put_prev : level_next (put_prev_entry p l v) ≡ level_next p
  unfolding put_prev_entry
  level_next-put_prev = fun_ext λ j. ground arith

  pub level_prev-put_prev : level_prev (put_prev_entry p l v) ≡ update (level_prev p) l v
  unfolding put_prev_entry
  level_prev-put_prev = fun_ext λ j. ground arith

  pub level_info-put_next : level_info (put_next_entry p l v) ≡ level_info p
  unfolding put_next_entry
  level_info-put_next = fun_ext λ j. ground arith

  pub level_info-put_prev : level_info (put_prev_entry p l v) ≡ level_info p
  unfolding put_prev_entry
  level_info-put_prev = fun_ext λ j. ground arith
