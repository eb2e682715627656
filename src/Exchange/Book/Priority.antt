-- ===== src/Exchange/Book/Priority.antt =====
-- `checkForMatch` (exchange/matcher/me_order_book.cpp) fills the orders of a price level in the order
-- of their arrival.
use nano_trade.Base.{
  ℕ, zero, suc, ◌+◌, ◌-◌, ◌≤◌, ◌<◌, ◌≡◌, refl, sym, ◌∙◌, ap, arith, true, false, ◌||◌, some, List,
  [], ◌∷◌, ◌++◌, subst, update_self,
}
use nano_trade.Base.Lists.{All, Distinct, length, All-append_left, All-map, All-both}
use nano_trade.Base.Distinct.{Distinct-length}
use nano_trade.Base.Int.{ℤ}
use nano_trade.Base.Outcome.{ok}
use nano_trade.Common.Types.{is_buy, is_sell}
use nano_trade.Exchange.Book.{MeOrderBook, MeOrder, Message, Orders, order, order_at, put_qty}
use nano_trade.Exchange.Book.Links.{order_info, order_free}
use nano_trade.Exchange.Book.Levels.{get_orders_at_price}
use nano_trade.Exchange.Book.Notices.{Aggressor}
use nano_trade.Exchange.Book.Matching.{does_not_reach, opposite_best, match_loop, check_for_match}
use nano_trade.Exchange.Book.Queues.{HasOrders, IsQueue}
use nano_trade.Exchange.Book.Fills.{
  fill_messages, partly_filled, cut, match_loop-done, match_loop-first,
}
use nano_trade.Exchange.Book.Takes.{put_qty-ne, free-put_qty, put_qty-IsQueue}
use nano_trade.Exchange.Book.Frames.{
  contents, total_qty, IsResting, IsHeld, SameOrder, SameRest, given_back, best-frame,
}
use nano_trade.Exchange.Book.Sweep.{swept_messages, Swept, match_loop-eq, match_loop-Swept}

-- The messages of the fills: of the orders taken, in order, and then of the part of `m`, if any.
abbrev pub fills_sent :
    Aggressor → List MeOrder → MeOrder → (qty r : ℕ) → List Message → List Message
fills_sent a ms m qty zero sent = swept_messages a ms qty sent
fills_sent a ms m qty (suc r) sent = fill_messages a m (suc r) (swept_messages a ms qty sent)

-- The book after an order for `qty` has taken the orders `os` of the level `l` and `r` of `y`.
pub record FilledInOrder (a : Aggressor) (l qty r : ℕ) (os : List ℕ) (y : ℕ) (ys : List ℕ)
    (b b' : MeOrderBook) : Type 0 where
  pub has : HasOrders b' l (y ∷ ys)
  pub left : (order_at b' y).qty ≡ (order_at b y).qty - r
  pub kept : All (SameOrder b b') ys
  pub freed : order_free b'.order_pool ≡ given_back os (order_free b.order_pool)
  pub sent : b'.sent ≡ fills_sent a (contents b os) (order_info b.order_pool y) qty r b.sent
  pub others : SameRest b b'

IsQueue-Distinct : (p : Orders) (os : List ℕ) → IsQueue p os → Distinct os
IsQueue-Distinct p [] h = tt
IsQueue-Distinct p (o ∷ os) h = h.distinct

put_qty-qty : (p : Orders) (o v : ℕ) → (order (put_qty p o v) o).qty ≡ v
unfolding put_qty
put_qty-qty p o v = ap (λ c. c.object.qty) (update_self p.store o _)

length-cons_more : (os : List ℕ) (y : ℕ) (ys : List ℕ) → suc (length os) ≤ length (os ++ y ∷ ys)
length-cons_more [] y ys = omega arith
length-cons_more (o ∷ os) y ys = omega (arith, length-cons_more os y ys)

module _ (a : Aggressor) (p : ℤ) (l : ℕ) (reach : does_not_reach a.side a.price p ≡ false) where
  -- What is left after whole orders comes from the next one.
  match_loop-rest :
      (r fuel qty y : ℕ) (os ys : List ℕ) (b b' : MeOrderBook)
      → 2 ≤ fuel
      → opposite_best b' a.side ≡ some l
      → IsResting p (order_info b.order_pool y)
      → r < (order_at b y).qty
      → Swept a l qty os (y ∷ ys) b b'
      → (b'' : MeOrderBook) × (match_loop fuel a r b' ≡ ok (0, b''))
        × FilledInOrder a l qty r os y ys b b''
  match_loop-rest zero fuel qty y os ys b b' f best m small s = (
    b',
    match_loop-done fuel a b' (omega arith),
    record {
      has = s.has;
      left = ap (λ m. m.qty) s.kept.0 ∙ omega arith;
      kept = s.kept.1;
      freed = s.freed;
      sent = s.sent;
      others = s.others;
    },
  )
  match_loop-rest (suc r) fuel qty y os ys b b' f best m small s =
      let same : (order_at b' y).qty ≡ (order_at b y).qty = ap (λ m. m.qty) s.kept.0 in
      let price : (order_at b' y).price ≡ p = ap (λ m. m.price) s.kept.0 ∙ m.price in
      (
        partly_filled a b' y (suc r),
        match_loop-first fuel a b' l y (suc r) f best s.has.first
            (subst (λ k. does_not_reach a.side a.price k ≡ false) (sym price) reach) (omega arith)
            (rw same small),
        record {
          has = record {
            first = s.has.first;
            queue = put_qty-IsQueue b'.order_pool y _ (y ∷ ys) s.has.queue;
          };
          left = put_qty-qty b'.order_pool y _ ∙ rw same refl;
          kept =
              All-both ys (λ j n e. put_qty-ne b'.order_pool y _ j n ∙ e) s.has.queue.distinct.0
                s.kept.1;
          freed = free-put_qty b'.order_pool y _ ∙ s.freed;
          sent =
              ap (λ m. fill_messages a m (suc r) b'.sent) s.kept.0
              ∙ ap (fill_messages a (order_info b.order_pool y) (suc r)) s.sent;
          others = s.others;
        },
      )

-- An order to buy or sell whose price reaches the level that is the best of the other side, and
-- which wants the quantities of the oldest orders of that level in whole and, of the next one, less
-- than it has; the orders of the level are of that price and for at least one, their blocks are in
-- use, and their identifiers are inside the arrays. The matching ends with nothing left. The orders
-- are filled in the order of their arrival, each at its own price and with its four messages; the
-- ones filled in whole have left the level and the pool, and no other block is freed; the next one
-- is first and keeps the rest of its quantity; the ones after it are unchanged but in their links
-- and keep their places.
pub check_for_match-FilledInOrder :
    (a : Aggressor) (b : MeOrderBook) (p : ℤ) (l r y : ℕ) (os ys : List ℕ)
    → (is_buy a.side || is_sell a.side) ≡ true
    → opposite_best b a.side ≡ some l
    → get_orders_at_price p b ≡ ok (some l, b)
    → does_not_reach a.side a.price p ≡ false
    → HasOrders b l (os ++ y ∷ ys)
    → All (IsHeld b) (os ++ y ∷ ys)
    → All (IsResting p) (contents b os)
    → IsResting p (order_info b.order_pool y)
    → r < (order_at b y).qty
    → (b' : MeOrderBook) × (check_for_match a (total_qty (contents b os) + r) b ≡ ok (0, b'))
      × FilledInOrder (cut a) l (total_qty (contents b os) + r) r os y ys b b'
unfolding check_for_match
check_for_match-FilledInOrder a b p l r y os ys sided best known reach h held ms m small =
    let size = b.order_pool.size in
    let few : length (os ++ y ∷ ys) ≤ size =
      Distinct-length size (os ++ y ∷ ys) (IsQueue-Distinct b.order_pool _ h.queue)
        (All-map (os ++ y ∷ ys) (λ _ u. u.inside) held) in
    let fuel = size + 1 - length os in
    let (b₁, runs₁, s) =
      match_loop-Swept (cut a) p l reach os b fuel y r ys known best h ms
        (All-append_left _ os (y ∷ ys) held) in
    let (b₂, runs₂, f) =
      match_loop-rest (cut a) p l reach r fuel (total_qty (contents b os) + r) y os ys b b₁
        (omega (arith, few, length-cons_more os y ys)) (best-frame a b b₁ s.others ∙ best) m small
        s in
    (
      b₂,
      rw sided (
          match_loop-eq (cut a) b (size + 1) (length os + fuel) _ _
            (omega (arith, few, length-cons_more os y ys)) refl
          ∙ runs₁
          ∙ runs₂),
      f,
    )
