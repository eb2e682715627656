-- ===== src/Exchange/Book/Fresh.antt =====
-- A new level of `MEOrderBook` (exchange/matcher/me_order_book.h) in the pool, before it is in a ring,
-- and its one order.
use nano_trade.Base.{
  ℕ, ◌≡◌, ◌≢◌, refl, sym, ◌∙◌, ap, arith, true, Bool, ==-self, update, update-ne, update_self, some,
  Option, List, [], ◌∷◌, subst₂, fun_ext,
}
use nano_trade.Base.Int.{ℤ}
use nano_trade.Base.Outcome.{ok}
use nano_trade.Base.Lists.{All, NotIn}
use nano_trade.Base.Ring.{Links, Ring, Seg-update_next, Seg-update_prev}
use nano_trade.Common.Types.{Side}
use nano_trade.Common.MemPool.{allocate}
use nano_trade.Common.MemPool.Full.{Allocated}
use nano_trade.Exchange.Book.{
  MeOrderBook, MeOrdersAtPrice, Orders, Levels, put_prev_order, put_next_order,
}
use nano_trade.Exchange.Book.Links.{
  level_next, level_prev, next-put_next, prev-put_next, prev-put_prev,
}
use nano_trade.Exchange.Book.Levels.{comes_after}
use nano_trade.Exchange.Book.Orders.{allocate_level}
use nano_trade.Exchange.Book.Fifo.{Queue}
use nano_trade.Exchange.Book.Walk.{placed}
use nano_trade.Exchange.Book.Ladder.{IsLevelRing, IsRanked}

Ring-update :
    {nxt prv : Links} (x : ℕ) (v w : Option ℕ) (h : ℕ) (xs : List ℕ)
    → NotIn x (h ∷ xs)
    → Ring nxt prv h xs
    → Ring (update nxt x v) (update prv x w) h xs
Ring-update x v w h xs n r = record {
  links = Seg-update_next _ _ x v h h xs n (Seg-update_prev _ _ x w h h xs n.1 n.0 r.links);
  distinct = r.distinct;
}

-- The pool of levels after a block has been handed out, with the level `m` in it.
module _ (p q : Levels) (m : MeOrdersAtPrice) (a : Allocated p q m) where
  abbrev new : ℕ
  new = p.next_free_index

  made_next : level_next q ≡ update (level_next p) new m.next_entry
  made_next = rw a.blocks (fun_ext λ j. ground arith)

  made_prev : level_prev q ≡ update (level_prev p) new m.prev_entry
  made_prev = rw a.blocks (fun_ext λ j. ground arith)

  pub made_price : (l : ℕ) → l ≢ new → (q.store l).object.price ≡ (p.store l).object.price
  made_price l n =
      ap (λ s. (s l).object.price) a.blocks ∙ ap (λ s. s.object.price) (update-ne p.store new _ l n)

  pub made : (q.store new).object ≡ m
  made = ap (λ s. (s new).object) a.blocks ∙ ap (λ s. s.object) (update_self p.store new _)

  pub made-IsLevelRing : (ls : List ℕ) → NotIn new ls → IsLevelRing p ls → IsLevelRing q ls
  made-IsLevelRing [] n r = tt
  made-IsLevelRing (h ∷ ls) n r =
      subst₂ (λ f g. Ring f g h ls) (sym made_next) (sym made_prev)
        (Ring-update new m.next_entry m.prev_entry h ls n r)

pub placed-eq :
    (f g : ℕ → Bool) (x : ℕ) (ls : List ℕ) → All (λ l. f l ≡ g l) ls → placed f x ls ≡ placed g x ls
placed-eq f g x [] e = refl
placed-eq f g x (l ∷ ls) e = rw (e.0, placed-eq f g x ls e.1) refl

pub IsRanked-eq :
    (side : Side) (f g : ℕ → ℤ) (ls : List ℕ)
    → All (λ l. f l ≡ g l) ls
    → IsRanked side f ls
    → IsRanked side g ls
IsRanked-eq side f g [] e r = tt
IsRanked-eq side f g (l ∷ []) e r = tt
IsRanked-eq side f g (l ∷ m ∷ ls) e r = (
  subst₂ (λ p q. comes_after side p q ≡ true) e.1.0 e.0 r.0,
  IsRanked-eq side f g (m ∷ ls) e.1 r.1,
)

pub alone-Queue :
    (p : Orders) (o : ℕ) → Queue (put_next_order (put_prev_order p o (some o)) o (some o)) o []
alone-Queue p o = record {
  links = (
    ap (λ f. f o) (next-put_next _ o (some o)) ∙ rw ==-self refl,
    ap (λ f. f o) (prev-put_next _ o (some o) ∙ prev-put_prev p o (some o)) ∙ rw ==-self refl,
  );
  distinct = (tt, tt);
}

pub allocate_level-eq :
    (b : MeOrderBook) (m : MeOrdersAtPrice) (l : ℕ) (q : Levels)
    → allocate b.orders_at_price_pool m ≡ ok (l, q)
    → allocate_level m b ≡ ok (l, record b { orders_at_price_pool = q })
unfolding allocate_level
allocate_level-eq b m l q e = rw (e, allocate_level) refl
