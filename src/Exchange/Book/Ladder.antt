-- ===== src/Exchange/Book/Ladder.antt =====
-- The levels of a side stand in a ring, best price first: `addOrdersAtPrice` of `MEOrderBook`
-- (exchange/matcher/me_order_book.h) keeps them so.
use nano_trade.Base.{
  ℕ, ◌<◌, ◌≡◌, ◌≢◌, refl, sym, ◌∙◌, true, false, Bool, Bool-cases, inl, inr, if◌then◌else◌, ==-ne,
  ==-self, same_ptr, ◌||◌, update, Option, some, List, [], ◌∷◌, ◌++◌, subst, subst₂,
}
use nano_trade.Base.Int.{ℤ}
use nano_trade.Base.Outcome.{ok}
use nano_trade.Base.Lists.{All, NotIn, length, All-append, All-append_left, All-append_right}
use nano_trade.Base.Ring.{Ring, Ring-rotate, Seg-last}
use nano_trade.Base.Linked.{InRing}
use nano_trade.Common.Types.{Side, is_buy, is_sell}
use nano_trade.Exchange.Book.{MeOrderBook, Levels, level_at, best_by_price, put_next_entry}
use nano_trade.Exchange.Book.Links.{
  level_next, level_info, level_next-put_next, level_prev-put_next, level_info-put_next,
}
use nano_trade.Exchange.Book.Levels.{
  price_to_index, set_orders_at_price, comes_after, replace_best, place_level,
}
use nano_trade.Exchange.Book.LevelRing.{me_levels, insert_before-InRing, insert_after-InRing}
use nano_trade.Exchange.Book.Queues.{head?}
use nano_trade.Exchange.Book.Walk.{
  placed, at_end, before_level, stop-Stops, find_target-better, find_target-stop, between-InRing,
  update_same, comes_after_asym, comes_after-total,
}

abbrev pub IsLevelRing : Levels → List ℕ → Type 0
IsLevelRing p [] = Unit
IsLevelRing p (l ∷ ls) = InRing me_levels p l ls

-- The levels `ls` are those of a side, the best first.
pub record HasLevels (b : MeOrderBook) (side : Side) (ls : List ℕ) : Type 0 where
  pub first : best_by_price b side ≡ head? ls
  pub ring : IsLevelRing b.orders_at_price_pool ls

pub set_orders_at_price-eq :
    (b : MeOrderBook) (price : ℤ) (i : ℕ) (v : Option ℕ)
    → price_to_index price b ≡ ok (i, b)
    → set_orders_at_price price v b
      ≡ ok (tt, record b { price_orders_at_price = update b.price_orders_at_price i v })
unfolding set_orders_at_price
set_orders_at_price-eq b price i v e = rw e refl

-- The book with the new level in its table, before it is in a ring.
abbrev pub filed_level : MeOrderBook → ℕ → ℕ → MeOrderBook
filed_level b i x = record b { price_orders_at_price = update b.price_orders_at_price i (some x) }

abbrev pub with_best : MeOrderBook → Side → Option ℕ → MeOrderBook
with_best b side v =
    if is_buy side then record b { bids_by_price = v } else record b { asks_by_price = v }

pub best-with_best :
    (b : MeOrderBook) (side : Side) (v : Option ℕ) → best_by_price (with_best b side v) side ≡ v
best-with_best b Side.buy v = refl
best-with_best b Side.sell v = refl
best-with_best b Side.invalid v = refl
best-with_best b Side.max v = refl

pub pool-with_best :
    (b : MeOrderBook) (side : Side) (v : Option ℕ)
    → (with_best b side v).orders_at_price_pool ≡ b.orders_at_price_pool
pool-with_best b Side.buy v = refl
pool-with_best b Side.sell v = refl
pool-with_best b Side.invalid v = refl
pool-with_best b Side.max v = refl

-- A level that is not alone does not lead to itself.
next-ne_self :
    (q : Levels) (h x : ℕ) (xs : List ℕ)
    → InRing me_levels q h (xs ++ x ∷ [])
    → same_ptr (level_next q h) (some h) ≡ false
next-ne_self q h x [] r = rw r.links.0 (==-ne x h r.distinct.0.0)
next-ne_self q h x (y ∷ ys) r = rw r.links.0 (==-ne y h r.distinct.0.0)

module _ (b : MeOrderBook) (x best : ℕ) (rest : List ℕ)
    (h : HasLevels b (level_at b x).side (best ∷ rest)) (n : NotIn x (best ∷ rest)) where
  abbrev follows : ℕ → Bool
  follows l = comes_after (level_at b x).side (level_at b x).price (level_at b l).price

  turned_apart :
      (xs : List ℕ) (t : ℕ) (ys : List ℕ) → rest ≡ xs ++ t ∷ ys → NotIn x (t ∷ ys ++ best ∷ xs)
  turned_apart xs t ys d =
      let n' = subst (NotIn x) d n.1 in
      let (m, ms) = All-append_right (λ y. y ≢ x) xs (t ∷ ys) n' in
      (
        m,
        All-append (λ y. y ≢ x) ys (best ∷ xs) ms
            (n.0, All-append_left (λ y. y ≢ x) xs (t ∷ ys) n'),
      )

  -- Worse than the best level.
  pub add-worse :
      follows best ≡ true
      → length rest < b.orders_at_price_pool.size
      → (q : Levels) × (place_level x best b ≡ ok (tt, record b { orders_at_price_pool = q }))
        × InRing me_levels q best (placed follows x rest)
        × (level_info q ≡ level_info b.orders_at_price_pool)
  unfolding place_level
  add-worse e room = elim (stop-Stops follows best x rest) [
    | at_end s p ↦
        let (q, runs, ring, info) = insert_after-InRing b x best rest h.ring n in
        (
          q,
          rw
              (
                find_target-stop b (level_at b x).side (level_at b x).price best rest e h.ring room,
                s,
                ==-self,
                Seg-last _ _ best best rest h.ring.links,
              )
              runs,
          rw p ring,
          info,
        )
    | before_level xs t ys d s p ↦
        let turned =
          Ring-rotate best t xs ys
            (subst (InRing me_levels b.orders_at_price_pool best) d h.ring) in
        let (q, runs, ring, info) =
          insert_before-InRing b x t (ys ++ best ∷ xs) turned (turned_apart xs t ys d) in
        (
          q,
          rw
              (
                find_target-stop b (level_at b x).side (level_at b x).price best rest e h.ring room,
                s,
                runs,
                comes_after_asym (level_at b x).side (level_at b x).price (level_at b best).price e,
              )
              refl,
          rw p (between-InRing q best x t xs ys ring),
          info,
        )
  ]

  -- Better than the best level.
  pub add-better :
      follows best ≡ false
      → comes_after (level_at b x).side (level_at b best).price (level_at b x).price ≡ true
      → (q : Levels) × (place_level x best b
          ≡ ok (tt, with_best (record b { orders_at_price_pool = q }) (level_at b x).side (some x)))
        × InRing me_levels q x (best ∷ rest)
        × (level_info q ≡ level_info b.orders_at_price_pool)
  unfolding place_level replace_best
  add-better e f =
      let (q, runs, ring, info) = insert_before-InRing b x best rest h.ring n in
      let next = level_next q best in
      let same_next : level_next (put_next_entry q best next) ≡ level_next q =
        level_next-put_next q best next ∙ update_same (level_next q) best next refl in
      (
        put_next_entry q best next,
        rw
            (
              find_target-better b (level_at b x).side (level_at b x).price best e,
              runs,
              f,
              next-ne_self q best x rest ring,
            )
            refl,
        Ring-rotate best x rest [] (
            subst₂ (λ g k. Ring g k best (rest ++ x ∷ [])) (sym same_next)
              (sym (level_prev-put_next q best next)) ring),
        level_info-put_next q best next ∙ info,
      )

-- Each level is worse than the one before it.
abbrev pub IsRanked : Side → (ℕ → ℤ) → List ℕ → Type 0
IsRanked side price [] = Unit
IsRanked side price (l ∷ []) = Unit
IsRanked side price (l ∷ m ∷ ls) =
    (comes_after side (price m) (price l) ≡ true) × IsRanked side price (m ∷ ls)

abbrev pub level_price : MeOrderBook → ℕ → ℤ
level_price b l = (level_at b l).price

pub placed-IsRanked :
    (side : Side) (price : ℕ → ℤ) (x : ℕ) (ls : List ℕ)
    → (is_buy side || is_sell side) ≡ true
    → All (λ l. price x ≢ price l) ls
    → IsRanked side price ls
    → IsRanked side price (placed (λ l. comes_after side (price x) (price l)) x ls)
placed-IsRanked side price x [] s n r = tt
placed-IsRanked side price x (l ∷ []) s n r =
    elim (Bool-cases (comes_after side (price x) (price l))) [
      | inl e ↦ rw e (e, tt)
      | inr e ↦ rw e (comes_after-total side _ _ s n.0 e, tt)
    ]
placed-IsRanked side price x (l ∷ m ∷ ls) s n r =
    elim (Bool-cases (comes_after side (price x) (price l))) [
      | inr e ↦ rw e (comes_after-total side _ _ s n.0 e, r)
      | inl e ↦ elim (Bool-cases (comes_after side (price x) (price m))) [
        | inl f ↦ rw (e, f) (r.0, rw f at (placed-IsRanked side price x (m ∷ ls) s n.1 r.1))
        | inr f ↦ rw (e, f) (e, (comes_after-total side _ _ s n.1.0 f, r.1))
      ]
    ]

-- What `add_orders_at_price` leaves when it has put the level `x` in its place.
pub record Ladder (b b' : MeOrderBook) (x i : ℕ) (ls : List ℕ) : Type 0 where
  pub has : HasLevels b' (level_at b x).side ls
  pub ranked : IsRanked (level_at b x).side (level_price b') ls
  pub info : level_info b'.orders_at_price_pool ≡ level_info b.orders_at_price_pool
  pub table : b'.price_orders_at_price ≡ update b.price_orders_at_price i (some x)
  pub others :
      record b' {
        orders_at_price_pool = b.orders_at_price_pool;
        bids_by_price = b.bids_by_price;
        asks_by_price = b.asks_by_price;
        price_orders_at_price = b.price_orders_at_price;
      }
      ≡ b
