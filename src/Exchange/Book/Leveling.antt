-- ===== src/Exchange/Book/Leveling.antt =====
-- `removeOrdersAtPrice` of `MEOrderBook` (exchange/matcher/me_order_book.h): the levels of a side
-- before and after it.
use nano_trade.Base.{
  ℕ, ◌<◌, ◌≡◌, refl, sym, ◌∙◌, ap, arith, true, false, ==-self, ==-ne, some, List, [], ◌∷◌, ◌++◌,
  append-nil, subst,
}
use nano_trade.Base.Int.{ℤ}
use nano_trade.Base.Outcome.{ok}
use nano_trade.Base.Lists.{All-append_right}
use nano_trade.Base.Ring.{Ring-rotate}
use nano_trade.Common.Types.{Side}
use nano_trade.Exchange.Book.{MeOrderBook}
use nano_trade.Exchange.Book.Links.{level_free}
use nano_trade.Exchange.Book.Levels.{price_to_index, comes_after, remove_orders_at_price}
use nano_trade.Exchange.Book.Ladder.{HasLevels, IsRanked, level_price}
use nano_trade.Exchange.Book.Vacated.{IsVacated, removed_alone, removed_shared}

comes_after_trans :
    (side : Side) (p q r : ℤ)
    → comes_after side q p ≡ true
    → comes_after side r q ≡ true
    → comes_after side r p ≡ true
comes_after_trans Side.buy p q r h k = ground (arith, h, k)
comes_after_trans Side.sell p q r h k = ground (arith, h, k)
comes_after_trans Side.invalid p q r h k = h
comes_after_trans Side.max p q r h k = h

-- Without one of its levels a ladder is still in order.
remaining-IsRanked :
    (side : Side) (price : ℕ → ℤ) (l : ℕ) (xs ys : List ℕ)
    → IsRanked side price (xs ++ l ∷ ys)
    → IsRanked side price (xs ++ ys)
remaining-IsRanked side price l [] [] r = tt
remaining-IsRanked side price l [] (y ∷ ys) r = r.1
remaining-IsRanked side price l (x ∷ []) [] r = tt
remaining-IsRanked side price l (x ∷ []) (y ∷ ys) r =
    (comes_after_trans side (price x) (price l) (price y) r.0 r.1.0, r.1.1)
remaining-IsRanked side price l (x ∷ z ∷ xs) ys r =
    (r.0, remaining-IsRanked side price l (z ∷ xs) ys r.1)

-- What `remove_orders_at_price` leaves of the levels of a side.
pub record Remains (b b' : MeOrderBook) (side : Side) (l i : ℕ) (ls : List ℕ) : Type 0 where
  pub has : HasLevels b' side ls
  pub ranked : IsRanked side (level_price b') ls
  pub vacated : IsVacated b b' l i

module _ (b : MeOrderBook) (side : Side) (price : ℤ) (l i : ℕ)
    (filed : price_to_index price b ≡ ok (i, b)) (known : b.price_orders_at_price i ≡ some l)
    (inside : l < b.orders_at_price_pool.size)
    (used : level_free b.orders_at_price_pool l ≡ false) where
  remaining-HasLevels :
      (xs ys : List ℕ)
      → HasLevels b side (xs ++ l ∷ ys)
      → (b' : MeOrderBook) × (remove_orders_at_price side price b ≡ ok (tt, b'))
        × HasLevels b' side (xs ++ ys)
        × IsVacated b b' l i
  remaining-HasLevels [] [] h =
      let (b', runs, first, gone) = removed_alone b side price l i filed known inside used h.ring in
      (b', runs, record { first = first; ring = tt }, gone)
  remaining-HasLevels [] (y ∷ ys) h =
      let (b', runs, first, ring, gone) =
        removed_shared b side price l i filed known inside used y ys h.ring in
      (b', runs, record { first = first ∙ rw (h.first, ==-self) refl; ring = ring }, gone)
  remaining-HasLevels (x ∷ xs) [] h =
      let r = Ring-rotate x l xs [] h.ring in
      let (b', runs, first, ring, gone) =
        removed_shared b side price l i filed known inside used x xs r in
      (
        b',
        runs,
        record {
          first = first ∙ rw (h.first, ==-ne l x (λ e. r.distinct.0.0 (sym e))) refl;
          ring = rw append-nil ring;
        },
        gone,
      )
  remaining-HasLevels (x ∷ xs) (y ∷ ys) h =
      let r = Ring-rotate x l xs (y ∷ ys) h.ring in
      let (b', runs, first, ring, gone) =
        removed_shared b side price l i filed known inside used y (ys ++ x ∷ xs) r in
      (
        b',
        runs,
        record {
          first =
              first
              ∙ rw (h.first, ==-ne l x (All-append_right _ xs (l ∷ y ∷ ys) h.ring.distinct.0).0)
                  refl;
          ring = Ring-rotate y x ys xs ring;
        },
        gone,
      )

  pub remove_orders_at_price-Remains :
      (xs ys : List ℕ)
      → HasLevels b side (xs ++ l ∷ ys)
      → IsRanked side (level_price b) (xs ++ l ∷ ys)
      → (b' : MeOrderBook) × (remove_orders_at_price side price b ≡ ok (tt, b'))
        × Remains b b' side l i (xs ++ ys)
  remove_orders_at_price-Remains xs ys h r =
      let (b', runs, has, gone) = remaining-HasLevels xs ys h in
      (
        b',
        runs,
        record {
          has = has;
          ranked =
              subst (λ f. IsRanked side f (xs ++ ys)) (sym (ap (λ f m. (f m).price) gone.info))
                (remaining-IsRanked side (level_price b) l xs ys r);
          vacated = gone;
        },
      )
