-- ===== src/Exchange/Book/Placing.antt =====
-- `addOrdersAtPrice` of `MEOrderBook` (exchange/matcher/me_order_book.h) as a whole: the levels of a
-- side before and after it.
use nano_trade.Base.{
  ℕ, ◌<◌, ◌≡◌, ◌≢◌, refl, sym, ◌∙◌, ap, true, Bool-cases, inl, inr, ◌||◌, ==-self, update, Option,
  some, List, [], ◌∷◌, subst,
}
use nano_trade.Base.Outcome.{ok}
use nano_trade.Base.Lists.{All, NotIn}
use nano_trade.Base.Distinct.{Distinct-length}
use nano_trade.Base.Linked.{InRing}
use nano_trade.Common.Types.{Side, is_buy, is_sell}
use nano_trade.Exchange.Book.{
  MeOrderBook, Levels, level_at, best_by_price, put_prev_entry, put_next_entry,
}
use nano_trade.Exchange.Book.Links.{
  level_info, level_next-put_next, level_next-put_prev, level_prev-put_prev, level_info-put_next,
  level_info-put_prev,
}
use nano_trade.Exchange.Book.Levels.{price_to_index, comes_after, add_to_side, add_orders_at_price}
use nano_trade.Exchange.Book.LevelRing.{me_levels}
use nano_trade.Exchange.Book.Walk.{placed, comes_after-total}
use nano_trade.Exchange.Book.Ladder.{
  HasLevels, IsRanked, level_price, placed-IsRanked, Ladder, set_orders_at_price-eq, filed_level,
  with_best, best-with_best, pool-with_best, add-worse, add-better,
}

table-with_best :
    (b : MeOrderBook) (side : Side) (v : Option ℕ)
    → (with_best b side v).price_orders_at_price ≡ b.price_orders_at_price
table-with_best b Side.buy v = refl
table-with_best b Side.sell v = refl
table-with_best b Side.invalid v = refl
table-with_best b Side.max v = refl

-- All but the levels of a book, which come from `b`.
abbrev pub apart_from : (b b' : MeOrderBook) → MeOrderBook
apart_from b b' = record b' {
  orders_at_price_pool = b.orders_at_price_pool;
  bids_by_price = b.bids_by_price;
  asks_by_price = b.asks_by_price;
  price_orders_at_price = b.price_orders_at_price;
}

others-with_best :
    (b : MeOrderBook) (side : Side) (v : Option ℕ) (q : Levels) (t : ℕ → Option ℕ)
    → apart_from b
        (with_best (record b { orders_at_price_pool = q; price_orders_at_price = t }) side v)
      ≡ b
others-with_best b Side.buy v q t = refl
others-with_best b Side.sell v q t = refl
others-with_best b Side.invalid v q t = refl
others-with_best b Side.max v q t = refl

best-with_pool :
    (b : MeOrderBook) (side : Side) (v : Option ℕ) (q : Levels)
    → best_by_price (record (with_best b side v) { orders_at_price_pool = q }) side ≡ v
best-with_pool b Side.buy v q = refl
best-with_pool b Side.sell v q = refl
best-with_pool b Side.invalid v q = refl
best-with_pool b Side.max v q = refl

alone-InRing :
    (p : Levels) (x : ℕ)
    → InRing me_levels (put_prev_entry (put_next_entry p x (some x)) x (some x)) x []
alone-InRing p x = record {
  links = (
    ap (λ f. f x) (level_next-put_prev _ x (some x) ∙ level_next-put_next p x (some x))
        ∙ rw ==-self refl,
    ap (λ f. f x) (level_prev-put_prev _ x (some x)) ∙ rw ==-self refl,
  );
  distinct = (tt, tt);
}

-- The levels of the side with the new one at its place.
abbrev pub ladder_with : MeOrderBook → ℕ → List ℕ → List ℕ
ladder_with b x =
    placed (λ l. comes_after (level_at b x).side (level_at b x).price (level_price b l)) x

module _ (b : MeOrderBook) (x i : ℕ) (filed : price_to_index (level_at b x).price b ≡ ok (i, b))
    (sided : (is_buy (level_at b x).side || is_sell (level_at b x).side) ≡ true) where
  Ladder-ranked :
      (ls : List ℕ) (b' : MeOrderBook)
      → IsRanked (level_at b x).side (level_price b) ls
      → All (λ l. (level_at b x).price ≢ level_price b l) ls
      → HasLevels b' (level_at b x).side (ladder_with b x ls)
      → level_info b'.orders_at_price_pool ≡ level_info b.orders_at_price_pool
      → b'.price_orders_at_price ≡ update b.price_orders_at_price i (some x)
      → apart_from b b' ≡ b
      → Ladder b b' x i (ladder_with b x ls)
  Ladder-ranked ls b' r n has info table others = record {
    has = has;
    ranked =
        subst (λ f. IsRanked (level_at b x).side f (ladder_with b x ls))
          (sym (ap (λ f l. (f l).price) info))
          (placed-IsRanked (level_at b x).side (level_price b) x ls sided n r);
    info = info;
    table = table;
    others = others;
  }

  add-first :
      HasLevels b (level_at b x).side []
      → (b' : MeOrderBook) × (add_orders_at_price x b ≡ ok (tt, b')) × Ladder b b' x i (x ∷ [])
  unfolding add_orders_at_price add_to_side
  add-first h =
      let side = (level_at b x).side in
      let started = with_best (filed_level b i x) side (some x) in
      let p = started.orders_at_price_pool in
      let q = put_prev_entry (put_next_entry p x (some x)) x (some x) in
      (
        record started { orders_at_price_pool = q },
        rw (set_orders_at_price-eq b (level_at b x).price i (some x) filed, h.first) refl,
        Ladder-ranked [] _ tt tt
            (record {
              first = best-with_pool (filed_level b i x) side (some x) q;
              ring = alone-InRing p x;
            })
            (level_info-put_prev _ x (some x)
              ∙ level_info-put_next p x (some x)
              ∙ ap level_info (pool-with_best (filed_level b i x) side (some x)))
            (table-with_best (filed_level b i x) side (some x))
            (others-with_best b side (some x) b.orders_at_price_pool
              (update b.price_orders_at_price i (some x))),
      )

  -- A new level of a buying or selling side, whose price is in the window of the book and is not
  -- the price of another level of its side, where the levels of the side form a ring of blocks of
  -- the pool from the best price to the worst: `add_orders_at_price` ends without a fault; the
  -- levels of the side are then a ring with the new level before the first level that its price
  -- does not come after, still from the best price to the worst, and the side points at the best
  -- one. The table of prices holds the new level, and no other field of a level than the links has
  -- changed.
  pub add_orders_at_price-Ladder :
      (ls : List ℕ)
      → HasLevels b (level_at b x).side ls
      → IsRanked (level_at b x).side (level_price b) ls
      → All (λ l. l < b.orders_at_price_pool.size) ls
      → NotIn x ls
      → All (λ l. (level_at b x).price ≢ level_price b l) ls
      → (b' : MeOrderBook) × (add_orders_at_price x b ≡ ok (tt, b'))
        × Ladder b b' x i (ladder_with b x ls)
  unfolding add_orders_at_price add_to_side
  add_orders_at_price-Ladder [] h r k n p = add-first h
  add_orders_at_price-Ladder (best ∷ rest) h r k n p =
      elim (Bool-cases
        (comes_after (level_at b x).side (level_at b x).price (level_price b best))) [
          | inl e ↦
              let here = filed_level b i x in
              let (q, runs, ring, info) =
                add-worse here x best rest (record { first = h.first; ring = h.ring }) n e
                  (Distinct-length b.orders_at_price_pool.size (best ∷ rest) h.ring.distinct k) in
              (
                record here { orders_at_price_pool = q },
                rw (set_orders_at_price-eq b (level_at b x).price i (some x) filed, h.first) runs,
                Ladder-ranked (best ∷ rest) _ r p (rw e (record { first = h.first; ring = ring }))
                    info refl refl,
              )
          | inr e ↦
              let here = filed_level b i x in
              let side = (level_at b x).side in
              let (q, runs, ring, info) =
                add-better here x best rest (record { first = h.first; ring = h.ring }) n e
                  (comes_after-total side _ _ sided p.0 e) in
              let after = record here { orders_at_price_pool = q } in
              let pool = pool-with_best after side (some x) in
              (
                with_best after side (some x),
                rw (set_orders_at_price-eq b (level_at b x).price i (some x) filed, h.first) runs,
                Ladder-ranked (best ∷ rest) _ r p
                    (rw e
                      (record { first = best-with_best after side (some x); ring = rw pool ring }))
                    (ap level_info pool ∙ info) (table-with_best after side (some x))
                    (others-with_best b side (some x) q
                      (update b.price_orders_at_price i (some x))),
              )
        ]
