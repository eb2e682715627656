-- ===== src/Exchange/Book/LevelRing.antt =====
-- The ring of the price levels of a side: `addOrdersAtPrice` of `MEOrderBook`
-- (exchange/matcher/me_order_book.h) puts a level before or after another.
use nano_trade.Base.{
  ℕ, ◌≡◌, ◌≢◌, refl, sym, ◌∙◌, ap, arith, fun_ext, update, update-ne, some, List, [], ◌∷◌, ◌++◌,
  subst₂,
}
use nano_trade.Base.Outcome.{ok}
use nano_trade.Base.Lists.{NotIn, last, last-ne}
use nano_trade.Base.Ring.{Ring, Seg-last, Seg-next_last, Ring-insert, linked_next, linked_prev}
use nano_trade.Base.Linked.{Linked, InRing}
use nano_trade.Exchange.Book.{
  MeOrderBook, MeOrdersAtPrice, Levels, level, put_prev_entry, put_next_entry,
}
use nano_trade.Exchange.Book.Links.{
  level_next, level_prev, level_info, level_next-put_next, level_prev-put_next, level_next-put_prev,
  level_prev-put_prev, level_info-put_next, level_info-put_prev,
}
use nano_trade.Exchange.Book.Levels.{insert_after, insert_before}

-- The levels as linked memory.
abbrev pub me_levels : Linked Levels (ℕ → MeOrdersAtPrice)
me_levels = record {
  next = level_next;
  prev = level_prev;
  info = level_info;
  put_next = put_next_entry;
  put_prev = put_prev_entry;
  next-put_next = level_next-put_next;
  next-put_prev = level_next-put_prev;
  prev-put_next = level_prev-put_next;
  prev-put_prev = level_prev-put_prev;
  info-put_next = level_info-put_next;
  info-put_prev = level_info-put_prev;
}

update_comm :
    {A : Type 0} (f : ℕ → A) (i j : ℕ) (v w : A)
    → i ≢ j
    → update (update f i v) j w ≡ update (update f j w) i v
update_comm f i j v w n = fun_ext λ k. ground arith

-- A pool whose links are those of `p` with `x` put between `l` and `h`.
record Inserted (p q : Levels) (x h l : ℕ) : Type 0 where
  next : level_next q ≡ linked_next (level_next p) x h l
  prev : level_prev q ≡ linked_prev (level_prev p) x h l
  info : level_info q ≡ level_info p

module _ (p : Levels) (x h l : ℕ) (other : x ≢ l) where
  -- What `insert_before` leaves, and what `insert_after` leaves.
  abbrev before : Levels
  before =
      put_prev_entry
        (put_next_entry (put_next_entry (put_prev_entry p x (some l)) x (some h)) l (some x)) h
        (some x)

  abbrev behind : Levels
  behind =
      put_next_entry
        (put_next_entry (put_prev_entry (put_prev_entry p x (some l)) h (some x)) x (some h)) l
        (some x)

  before-Inserted : Inserted p before x h l
  before-Inserted = record {
    next =
        level_next-put_prev _ h (some x)
        ∙ level_next-put_next _ l (some x)
        ∙ ap (λ f. update f l (some x))
            (level_next-put_next _ x (some h)
              ∙ ap (λ f. update f x (some h)) (level_next-put_prev p x (some l)))
        ∙ update_comm (level_next p) x l (some h) (some x) other;
    prev =
        level_prev-put_prev _ h (some x)
        ∙ ap (λ f. update f h (some x))
            (level_prev-put_next _ l (some x)
              ∙ level_prev-put_next _ x (some h)
              ∙ level_prev-put_prev p x (some l));
    info =
        level_info-put_prev _ h (some x)
        ∙ level_info-put_next _ l (some x)
        ∙ level_info-put_next _ x (some h)
        ∙ level_info-put_prev p x (some l);
  }

  behind-Inserted : Inserted p behind x h l
  behind-Inserted = record {
    next =
        level_next-put_next _ l (some x)
        ∙ ap (λ f. update f l (some x))
            (level_next-put_next _ x (some h)
              ∙ ap (λ f. update f x (some h))
                  (level_next-put_prev _ h (some x) ∙ level_next-put_prev p x (some l)))
        ∙ update_comm (level_next p) x l (some h) (some x) other;
    prev =
        level_prev-put_next _ l (some x)
        ∙ level_prev-put_next _ x (some h)
        ∙ level_prev-put_prev _ h (some x)
        ∙ ap (λ f. update f h (some x)) (level_prev-put_prev p x (some l));
    info =
        level_info-put_next _ l (some x)
        ∙ level_info-put_next _ x (some h)
        ∙ level_info-put_prev _ h (some x)
        ∙ level_info-put_prev p x (some l);
  }

Inserted-InRing :
    (p q : Levels) (x h : ℕ) (xs : List ℕ)
    → Inserted p q x h (last h xs)
    → InRing me_levels p h xs
    → NotIn x (h ∷ xs)
    → InRing me_levels q h (xs ++ x ∷ [])
Inserted-InRing p q x h xs i r n =
    subst₂ (λ f g. Ring f g h (xs ++ x ∷ [])) (sym i.next) (sym i.prev) (Ring-insert r x n)

module _ (b : MeOrderBook) (x h : ℕ) (xs : List ℕ)
    (r : InRing me_levels b.orders_at_price_pool h xs) (n : NotIn x (h ∷ xs)) where
  apart : x ≢ last h xs
  apart e = last-ne x h xs n.0 n.1 (sym e)

  -- Put before the level `h`.
  pub insert_before-InRing :
      (q : Levels) × (insert_before x h b ≡ ok (tt, record b { orders_at_price_pool = q }))
      × InRing me_levels q h (xs ++ x ∷ [])
      × (level_info q ≡ level_info b.orders_at_price_pool)
  unfolding insert_before
  insert_before-InRing =
      let p = b.orders_at_price_pool in
      let l = last h xs in
      let i = before-Inserted p x h l apart in
      let again : (level (put_next_entry (put_prev_entry p x (some l)) x (some h)) h).prev_entry
          ≡ some l =
        ap (λ f. f h) (level_prev-put_next _ x (some h) ∙ level_prev-put_prev p x (some l))
        ∙ update-ne (level_prev p) x (some l) h n.0
        ∙ Seg-last _ _ h h xs r.links in
      (
        before p x h l apart,
        rw (Seg-last _ _ h h xs r.links, again) refl,
        Inserted-InRing p (before p x h l apart) x h xs i r n,
        i.info,
      )

  -- Put behind the last level of the ring of `h`.
  pub insert_after-InRing :
      (q : Levels) × (insert_after x (last h xs) b ≡ ok (tt, record b { orders_at_price_pool = q }))
      × InRing me_levels q h (xs ++ x ∷ [])
      × (level_info q ≡ level_info b.orders_at_price_pool)
  unfolding insert_after
  insert_after-InRing =
      let p = b.orders_at_price_pool in
      let l = last h xs in
      let i = behind-Inserted p x h l apart in
      let first : (level (put_prev_entry p x (some l)) l).next_entry ≡ some h =
        ap (λ f. f l) (level_next-put_prev p x (some l)) ∙ Seg-next_last _ _ h h xs r.links in
      let again : (level (put_prev_entry (put_prev_entry p x (some l)) h (some x)) l).next_entry
          ≡ some h =
        ap (λ f. f l) (level_next-put_prev _ h (some x)) ∙ first in
      (
        behind p x h l apart,
        rw (first, again) refl,
        Inserted-InRing p (behind p x h l apart) x h xs i r n,
        i.info,
      )
