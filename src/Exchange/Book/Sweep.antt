-- ===== src/Exchange/Book/Sweep.antt =====
-- An aggressive order that takes several orders of a price level in `checkForMatch`
-- (exchange/matcher/me_order_book.cpp).
use nano_trade.Base.{
  ℕ, suc, ◌+◌, ◌-◌, ◌≤◌, ◌≡◌, ◌≢◌, refl, sym, ◌∙◌, ap, arith, true, false, ==-ne, some, List, [],
  ◌∷◌, ◌++◌, update, subst,
}
use nano_trade.Base.Lists.{All, length, All-append_left, All-append_right, All-map, All-both}
use nano_trade.Base.Int.{ℤ}
use nano_trade.Base.Outcome.{ok}
use nano_trade.Common.MemPool.{MemPool}
use nano_trade.Exchange.Book.{MeOrderBook, MeOrder, Message, order_at}
use nano_trade.Exchange.Book.Links.{order_info, order_free}
use nano_trade.Exchange.Book.Levels.{get_orders_at_price}
use nano_trade.Exchange.Book.Notices.{Aggressor}
use nano_trade.Exchange.Book.Matching.{does_not_reach, opposite_best, match_loop}
use nano_trade.Exchange.Book.Queues.{HasOrders, IsFiled}
use nano_trade.Exchange.Book.Takes.{
  taken_messages, put_qty-ne, put_qty-size, free-put_qty, match-taken,
}
use nano_trade.Exchange.Book.Frames.{
  contents, total_qty, IsResting, IsHeld, SameOrder, contents-eq, SameRest, given_back, same_self,
  SameRest-trans, known-frame, best-frame, IsHeld-frame,
}

abbrev pub swept_messages : Aggressor → List MeOrder → (qty : ℕ) → List Message → List Message
swept_messages a [] qty sent = sent
swept_messages a (m ∷ ms) qty sent = swept_messages a ms (qty - m.qty) (taken_messages a m qty sent)

swept_messages-eq :
    (a : Aggressor) (ms ns : List MeOrder) (q r : ℕ) (s t : List Message)
    → ms ≡ ns
    → q ≡ r
    → s ≡ t
    → swept_messages a ms q s ≡ swept_messages a ns r t
swept_messages-eq a ms ns q r s t e f g = rw (e, f, g) refl

-- The book after an order for `qty` has taken the orders `os` of the level `l`; `rest` stays.
pub record Swept (a : Aggressor) (l qty : ℕ) (os rest : List ℕ) (b b' : MeOrderBook) : Type 0 where
  pub has : HasOrders b' l rest
  pub kept : All (SameOrder b b') rest
  pub freed : order_free b'.order_pool ≡ given_back os (order_free b.order_pool)
  pub size : MemPool.size b'.order_pool ≡ MemPool.size b.order_pool
  pub sent : b'.sent ≡ swept_messages a (contents b os) qty b.sent
  pub others : SameRest b b'

append-cons-ne : (os : List ℕ) (y : ℕ) (ys : List ℕ) → os ++ y ∷ ys ≢ []
append-cons-ne [] y ys e = ground (arith, e)
append-cons-ne (o ∷ os) y ys e = ground (arith, e)

pub match_loop-eq :
    (a : Aggressor) (b : MeOrderBook) (n m q r : ℕ)
    → n ≡ m
    → q ≡ r
    → match_loop n a q b ≡ match_loop m a r b
match_loop-eq a b n m q r e f = rw (e, f) refl

module _ (a : Aggressor) (p : ℤ) (l : ℕ) (reach : does_not_reach a.side a.price p ≡ false) where
  -- One round of the loop that takes the first order.
  match_loop-taken :
      (b : MeOrderBook) (fuel o qty : ℕ) (rest : List ℕ)
      → rest ≢ []
      → get_orders_at_price p b ≡ ok (some l, b)
      → opposite_best b a.side ≡ some l
      → HasOrders b l (o ∷ rest)
      → IsResting p (order_info b.order_pool o)
      → IsHeld b o
      → (order_at b o).qty ≤ qty
      → (b' : MeOrderBook) × (match_loop (suc fuel) a qty b
          ≡ match_loop fuel a (qty - (order_at b o).qty) b')
        × Swept a l qty (o ∷ []) rest b b'
  unfolding match_loop
  match_loop-taken b fuel o qty rest ne known best h m u le =
      let known' = subst (λ k. get_orders_at_price k b ≡ ok (some l, b)) (sym m.price) known in
      let filed : IsFiled (order_at b o) = record { client = m.filed.client; id = m.filed.id } in
      let (b', runs, has, gone) =
        match-taken a b o l qty known' filed u.inside u.used [] rest h ne le in
      (
        b',
        rw
            (
              ==-ne qty 0 (λ e. omega (arith, e, le, m.something)),
              best,
              h.first,
              (subst (λ k. does_not_reach a.side a.price k ≡ false) (sym m.price) reach),
              runs,
            )
            refl,
        record {
          has = has;
          kept =
              All-map rest (λ j n. ap (λ g. g j) gone.info ∙ put_qty-ne b.order_pool o 0 j n)
                h.queue.distinct.0;
          freed = gone.free ∙ ap (λ f. update f o true) (free-put_qty b.order_pool o 0);
          size = gone.size ∙ put_qty-size b.order_pool o 0;
          sent = ap (λ x. x.sent) gone.others;
          others =
              ap {A = MeOrderBook} {B = MeOrderBook}
                (λ x. record x { order_pool = b.order_pool; sent = b.sent }) gone.others;
        },
      )

  -- Whole orders of the level, in the order of their arrival.
  pub match_loop-Swept :
      (os : List ℕ) (b : MeOrderBook) (fuel y r : ℕ) (ys : List ℕ)
      → get_orders_at_price p b ≡ ok (some l, b)
      → opposite_best b a.side ≡ some l
      → HasOrders b l (os ++ y ∷ ys)
      → All (IsResting p) (contents b os)
      → All (IsHeld b) os
      → (b' : MeOrderBook) × (match_loop (length os + fuel) a (total_qty (contents b os) + r) b
          ≡ match_loop fuel a r b')
        × Swept a l (total_qty (contents b os) + r) os (y ∷ ys) b b'
  match_loop-Swept [] b fuel y r ys known best h ms us = (
    b,
    match_loop-eq a b _ _ _ _ (omega arith) (omega arith),
    record {
      has = h;
      kept = same_self b (y ∷ ys);
      freed = refl;
      size = refl;
      sent = refl;
      others = refl;
    },
  )
  match_loop-Swept (o ∷ os) b fuel y r ys known best h ms us =
      let qty = (order_at b o).qty in
      let total = total_qty (contents b os) in
      let (b₁, runs₁, s₁) =
        match_loop-taken b (length os + fuel) o (qty + total + r) (os ++ y ∷ ys)
          (append-cons-ne os y ys) known best h ms.0 us.0 (omega arith) in
      let same = contents-eq b b₁ os (All-append_left _ os (y ∷ ys) s₁.kept) in
      let (b₂, runs₂, s₂) =
        match_loop-Swept os b₁ fuel y r ys (known-frame p l b b₁ s₁.others known)
          (best-frame a b b₁ s₁.others ∙ best) s₁.has (subst (All (IsResting p)) (sym same) ms.1)
          (All-both os (λ j n u. IsHeld-frame b b₁ o j s₁.freed s₁.size n u)
            (All-append_left _ os (y ∷ ys) h.queue.distinct.0) us.1) in
      (
        b₂,
        match_loop-eq a b _ _ _ _ (omega arith) refl
            ∙ runs₁
            ∙ match_loop-eq a b₁ _ _ _ _ refl (rw same (omega arith))
            ∙ runs₂,
        record {
          has = s₂.has;
          kept =
              All-both (y ∷ ys) (λ j e f. f ∙ e) (All-append_right _ os (y ∷ ys) s₁.kept) s₂.kept;
          freed = s₂.freed ∙ ap (given_back os) s₁.freed;
          size = s₂.size ∙ s₁.size;
          sent = s₂.sent ∙ swept_messages-eq a _ _ _ _ _ _ same (rw same (omega arith)) s₁.sent;
          others = SameRest-trans b b₁ b₂ s₁.others s₂.others;
        },
      )
