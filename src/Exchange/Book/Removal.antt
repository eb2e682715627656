-- ===== src/Exchange/Book/Removal.antt =====
-- `removeOrder` on an order that shares its price level with others.
use nano_trade.Base.{
  ℕ, ◌≡◌, ◌≢◌, ◌<◌, refl, sym, ◌∙◌, ap, arith, true, false, same_ptr, if◌then◌else◌, ==-self, ==-ne,
  none, some, append-nil, List, [], ◌∷◌, ◌++◌, subst, subst₂, fun_ext, update,
}
use nano_trade.Base.Outcome.{ok}
use nano_trade.Base.Lists.{All-append_right, last, last-ne}
use nano_trade.Base.Ring.{Seg-last, Ring, Ring-rotate}
use nano_trade.Common.MemPool.{MemPool, deallocate}
use nano_trade.Common.MemPool.Full.{Released, deallocate-Released}
use nano_trade.Exchange.Book.{
  MeOrderBook, Orders, Levels, order_at, level_at, level, put_first_me_order, put_prev_order,
  put_next_order,
}
use nano_trade.Exchange.Book.Links.{
  order_next, order_prev, order_info, order_free, free-put_next, free-put_prev,
}
use nano_trade.Exchange.Book.Levels.{get_orders_at_price}
use nano_trade.Exchange.Book.Orders.{remove_order, free_order}
use nano_trade.Exchange.Book.Fifo.{Queue, unlink_order-eq, unlinked-Queue, unlinked-info, unlinked}
use nano_trade.Exchange.Book.Queues.{HasOrders, IsFiled, filed, set_client_order-eq}

-- The pool after the block of `o` has been given back: the links and contents stay.
module _ (p q : Orders) (o : ℕ) (r : Released p o q) where
  freed-next : order_next q ≡ order_next p
  freed-next = rw r.blocks (fun_ext λ j. ground arith)

  freed-prev : order_prev q ≡ order_prev p
  freed-prev = rw r.blocks (fun_ext λ j. ground arith)

  pub freed-info : order_info q ≡ order_info p
  freed-info = rw r.blocks (fun_ext λ j. ground arith)

  pub freed-free : order_free q ≡ update (order_free p) o true
  freed-free = rw r.blocks (fun_ext λ j. ground arith)

  freed-Queue : (x : ℕ) (xs : List ℕ) → Queue p x xs → Queue q x xs
  freed-Queue x xs = subst₂ (λ f g. Ring f g x xs) (sym freed-next) (sym freed-prev)

unlinked-free :
    (p : Orders) (o before after : ℕ) → order_free (unlinked p o before after) ≡ order_free p
unlinked-free p o before after =
    free-put_prev _ o none
    ∙ free-put_next _ o none
    ∙ free-put_prev _ after (some before)
    ∙ free-put_next p before (some after)

unlinked-size :
    (p : Orders) (o before after : ℕ) → MemPool.size (unlinked p o before after) ≡ MemPool.size p
unfolding put_prev_order put_next_order
unlinked-size p o before after = refl

pub free_order-eq :
    (b : MeOrderBook) (o : ℕ) (q : Orders)
    → deallocate b.order_pool o ≡ ok q
    → free_order o b ≡ ok (tt, record b { order_pool = q })
unfolding free_order
free_order-eq b o q e = rw (e, free_order)

-- The level after its first order `o`, if it was that, has been replaced by `y`.
abbrev advanced : Levels → (l o y : ℕ) → Levels
advanced p l o y =
    if same_ptr (level p l).first_me_order (some o) then put_first_me_order p l (some y) else p

first-advanced :
    (p : Levels) (l o y : ℕ)
    → (level (advanced p l o y) l).first_me_order ≡ (
        if same_ptr (level p l).first_me_order (some o) then some y else (level p l).first_me_order)
unfolding put_first_me_order
first-advanced p l o y = ground arith

-- No order has changed but in its links, the block of `o` alone has become free, and the client's
-- entry is cleared. Beside the pools and the entries nothing has changed.
pub record IsGone (b b' : MeOrderBook) (o : ℕ) : Type 0 where
  pub info : order_info b'.order_pool ≡ order_info b.order_pool
  pub free : order_free b'.order_pool ≡ update (order_free b.order_pool) o true
  pub size : MemPool.size b'.order_pool ≡ MemPool.size b.order_pool
  pub others :
      record b' {
        order_pool = b.order_pool;
        orders_at_price_pool = b.orders_at_price_pool;
        cid_oid_to_order = b.cid_oid_to_order;
      }
      ≡ b
  pub forgotten : b'.cid_oid_to_order (order_at b o).client_id (order_at b o).client_order_id ≡ none

-- What `remove_order` leaves of a level, for an order `o` that others follow round the ring.
record Removed (b b' : MeOrderBook) (l o y : ℕ) (ys : List ℕ) : Type 0 where
  runs : remove_order o b ≡ ok (tt, b')
  queue : Queue b'.order_pool y ys
  first : (level_at b' l).first_me_order ≡ (
      if same_ptr (level_at b l).first_me_order (some o)
      then some y
      else (level_at b l).first_me_order)
  gone : IsGone b b' o

module _ (b : MeOrderBook) (o l : ℕ)
    (known : get_orders_at_price (order_at b o).price b ≡ ok (some l, b))
    (f : IsFiled (order_at b o)) (in_pool : o < b.order_pool.size)
    (used : order_free b.order_pool o ≡ false) where
  remove_order-Removed :
      (y : ℕ) (ys : List ℕ)
      → Queue b.order_pool o (y ∷ ys)
      → (b' : MeOrderBook) × Removed b b' l o y ys
  unfolding remove_order
  remove_order-Removed y ys r =
      let u = unlinked b.order_pool o (last y ys) y in
      let e₁ = unlink_order-eq b l o y ys r in
      let (q, e₂, rel) =
        deallocate-Released u o
          (subst (λ k. o < k) (sym (unlinked-size b.order_pool o (last y ys) y)) in_pool)
          (ap (λ g. g o) (unlinked-free b.order_pool o (last y ys) y) ∙ used) in
      (
        record (filed b (order_at b o) none) { order_pool = q; orders_at_price_pool = levels },
        record {
          runs = rw (
            known,
            Seg-last _ _ o o (y ∷ ys) r.links,
            ==-ne (last y ys) o (last-ne o y ys r.distinct.0.0 r.distinct.0.1),
            e₁,
            set_client_order-eq (record b { order_pool = u; orders_at_price_pool = levels })
                (order_at b o) none f,
            free_order-eq
                (filed (record b { order_pool = u; orders_at_price_pool = levels }) (order_at b o)
                  none)
                o q e₂,
          );
          queue = freed-Queue u q o rel y ys (unlinked-Queue b.order_pool o y ys r);
          first = first-advanced b.orders_at_price_pool l o y;
          gone = record {
            info = freed-info u q o rel ∙ unlinked-info b.order_pool o (last y ys) y;
            free =
                freed-free u q o rel
                ∙ ap (λ f. update f o true) (unlinked-free b.order_pool o (last y ys) y);
            size = rel.same_size ∙ unlinked-size b.order_pool o (last y ys) y;
            others = refl;
            forgotten = ground arith;
          };
        },
      )
    where
      levels : Levels
      levels = advanced b.orders_at_price_pool l o y

  -- From the level of its price, which holds other orders too, `remove_order` takes out an order
  -- whose block is in use and whose identifiers are inside the arrays. The others keep their order
  -- of arrival, and the level's first pointer leads to the oldest of them; its block is free again,
  -- and the client's entry for it is cleared.
  pub remove_order-HasOrders :
      (xs ys : List ℕ)
      → HasOrders b l (xs ++ o ∷ ys)
      → xs ++ ys ≢ []
      → (b' : MeOrderBook) × (remove_order o b ≡ ok (tt, b'))
        × HasOrders b' l (xs ++ ys)
        × IsGone b b' o
  remove_order-HasOrders [] [] h ne = absurd (ne refl)
  remove_order-HasOrders [] (y ∷ ys) h ne =
      let (b', g) = remove_order-Removed y ys h.queue in
      (b', g.runs, record { first = g.first ∙ rw (h.first, ==-self); queue = g.queue }, g.gone)
  remove_order-HasOrders (x ∷ xs) [] h ne =
      let r = Ring-rotate x o xs [] h.queue in
      let (b', g) = remove_order-Removed x xs r in
      (
        b',
        g.runs,
        record {
          first = g.first ∙ rw (h.first, ==-ne x o r.distinct.0.0);
          queue = rw append-nil g.queue;
        },
        g.gone,
      )
  remove_order-HasOrders (x ∷ xs) (y ∷ ys) h ne =
      let r = Ring-rotate x o xs (y ∷ ys) h.queue in
      let (b', g) = remove_order-Removed y (ys ++ x ∷ xs) r in
      (
        b',
        g.runs,
        record {
          first =
              g.first
              ∙ rw (
                h.first,
                ==-ne x o (λ e. (All-append_right _ xs (o ∷ y ∷ ys) h.queue.distinct.0).0 (sym e)),
              );
          queue = Ring-rotate y x ys xs g.queue;
        },
        g.gone,
      )
