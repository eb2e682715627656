-- ===== src/Exchange/Book/Vacating.antt =====
-- The steps of `removeOrdersAtPrice` of `MEOrderBook` (exchange/matcher/me_order_book.h).
use nano_trade.Base.{
  ℕ, ◌≡◌, ◌≢◌, refl, sym, ◌∙◌, ap, arith, true, Bool-cases, inl, inr, if◌then◌else◌, ==-self, ==-ne,
  same_ptr, update, update-ne, Option, some, none, List, [], ◌∷◌, fun_ext,
}
use nano_trade.Base.Int.{ℤ}
use nano_trade.Base.Outcome.{ok}
use nano_trade.Base.Lists.{last, last-ne}
use nano_trade.Base.Ring.{Seg-last}
use nano_trade.Base.Linked.{InRing}
use nano_trade.Common.Types.{Side, is_buy}
use nano_trade.Common.MemPool.{MemPool, deallocate}
use nano_trade.Common.MemPool.Full.{Released}
use nano_trade.Exchange.Book.{MeOrderBook, Levels, best_by_price, put_prev_entry, put_next_entry}
use nano_trade.Exchange.Book.Links.{
  level_next, level_prev, level_info, level_free, level_next-put_next, level_prev-put_next,
  level_next-put_prev, level_info-put_next, level_info-put_prev,
}
use nano_trade.Exchange.Book.Levels.{price_to_index, sub_i64, unlink_level, free_level}
use nano_trade.Exchange.Book.LevelRing.{me_levels}
use nano_trade.Exchange.Book.Ladder.{with_best}

-- The book with another best level of a side.
abbrev pub rebest : MeOrderBook → Side → Option ℕ → MeOrderBook
rebest b side v = record b {
  bids_by_price = if is_buy side then v else b.bids_by_price;
  asks_by_price = if is_buy side then b.asks_by_price else v;
}

with_best-eq : (b : MeOrderBook) (side : Side) (v : Option ℕ) → with_best b side v ≡ rebest b side v
with_best-eq b Side.buy v = refl
with_best-eq b Side.sell v = refl
with_best-eq b Side.invalid v = refl
with_best-eq b Side.max v = refl

rebest_same : (b : MeOrderBook) (side : Side) → rebest b side (best_by_price b side) ≡ b
rebest_same b Side.buy = refl
rebest_same b Side.sell = refl
rebest_same b Side.invalid = refl
rebest_same b Side.max = refl

pub best-rebest :
    (b : MeOrderBook) (side : Side) (v : Option ℕ) → best_by_price (rebest b side v) side ≡ v
best-rebest b Side.buy v = refl
best-rebest b Side.sell v = refl
best-rebest b Side.invalid v = refl
best-rebest b Side.max v = refl

-- The pool with the links of `l` cleared.
abbrev pub cleared : Levels → ℕ → Levels
cleared p l = put_prev_entry (put_next_entry p l none) l none

-- The pool with the levels `before` and `after` linked to each other.
abbrev pub bridged : Levels → (before after : ℕ) → Levels
bridged p before after = put_prev_entry (put_next_entry p before (some after)) after (some before)

pub unlink_level-alone :
    (b : MeOrderBook) (side : Side) (l : ℕ)
    → InRing me_levels b.orders_at_price_pool l []
    → unlink_level side l b ≡ ok (tt, rebest b side none)
unfolding unlink_level
unlink_level-alone b side l r = rw (r.links.0, ==-self, sym (with_best-eq b side none)) refl

pub unlink_level-shared :
    (b : MeOrderBook) (side : Side) (l y : ℕ) (zs : List ℕ)
    → InRing me_levels b.orders_at_price_pool l (y ∷ zs)
    → unlink_level side l b
      ≡ ok (
        tt,
        rebest
            (record b { orders_at_price_pool = bridged b.orders_at_price_pool (last y zs) y })
            side
            (if same_ptr (some l) (best_by_price b side) then some y else best_by_price b side),
      )
unfolding unlink_level
unlink_level-shared b side l y zs r =
    let p = b.orders_at_price_pool in
    let la = last y zs in
    let p₁ = put_next_entry p la (some y) in
    let apart : la ≢ l = last-ne l y zs r.distinct.0.0 r.distinct.0.1 in
    let next₁ : level_next p₁ l ≡ some y =
      ap (λ f. f l) (level_next-put_next p la (some y))
      ∙ update-ne (level_next p) la (some y) l (λ e. apart (sym e))
      ∙ r.links.0 in
    let prev₁ : level_prev p₁ l ≡ some la =
      ap (λ f. f l) (level_prev-put_next p la (some y)) ∙ Seg-last _ _ l l (y ∷ zs) r.links in
    let next₂ : level_next (put_prev_entry p₁ y (some la)) l ≡ some y =
      ap (λ f. f l) (level_next-put_prev p₁ y (some la)) ∙ next₁ in
    rw (r.links.0, ==-ne y l r.distinct.0.0, Seg-last _ _ l l (y ∷ zs) r.links, next₁, prev₁, next₂)
      (elim (Bool-cases (same_ptr (some l) (best_by_price b side))) [
        | inl e ↦
            rw
              (
                e,
                sym (
                    with_best-eq (record b { orders_at_price_pool = put_prev_entry p₁ y (some la) })
                      side (some y)),
              )
              refl
        | inr e ↦
            rw
              (
                e,
                rebest_same (record b { orders_at_price_pool = put_prev_entry p₁ y (some la) })
                    side,
              )
              refl
      ])

-- The pool after the block of `l` has been given back: the links and contents stay.
module _ (p q : Levels) (l : ℕ) (r : Released p l q) where
  pub freed-next : level_next q ≡ level_next p
  freed-next = rw r.blocks (fun_ext λ j. ground arith)

  pub freed-prev : level_prev q ≡ level_prev p
  freed-prev = rw r.blocks (fun_ext λ j. ground arith)

  pub freed-info : level_info q ≡ level_info p
  freed-info = rw r.blocks (fun_ext λ j. ground arith)

  pub freed-free : level_free q ≡ update (level_free p) l true
  freed-free = rw r.blocks (fun_ext λ j. ground arith)

pub cleared-free : (p : Levels) (l : ℕ) → level_free (cleared p l) ≡ level_free p
unfolding put_next_entry put_prev_entry
cleared-free p l = fun_ext λ j. ground arith

pub cleared-size : (p : Levels) (l : ℕ) → MemPool.size (cleared p l) ≡ MemPool.size p
unfolding put_next_entry put_prev_entry
cleared-size p l = refl

pub price_to_index-rebest :
    (b : MeOrderBook) (price : ℤ) (i : ℕ) (b' : MeOrderBook)
    → price_to_index price b ≡ ok (i, b)
    → b'.base_price ≡ b.base_price
    → price_to_index price b' ≡ ok (i, b')
unfolding price_to_index sub_i64
price_to_index-rebest b price i b' e f = ground (arith, e, f)

module _ (p : Levels) (before after : ℕ) where
  pub bridged-info : level_info (bridged p before after) ≡ level_info p
  bridged-info =
      level_info-put_prev _ after (some before) ∙ level_info-put_next p before (some after)

  pub bridged-free : level_free (bridged p before after) ≡ level_free p
  unfolding put_next_entry put_prev_entry
  bridged-free = fun_ext λ j. ground arith

  pub bridged-size : MemPool.size (bridged p before after) ≡ MemPool.size p
  unfolding put_next_entry put_prev_entry
  bridged-size = refl

pub free_level-eq :
    (b : MeOrderBook) (l : ℕ) (q : Levels)
    → deallocate b.orders_at_price_pool l ≡ ok q
    → free_level l b ≡ ok (tt, record b { orders_at_price_pool = q })
unfolding free_level
free_level-eq b l q e = rw (e, free_level) refl
