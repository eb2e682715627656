-- ===== src/Exchange/Book/Takes.antt =====
-- A fill that takes all of the passive order: it leaves the book.
use nano_trade.Base.{
  ℕ, ◌-◌, ◌≤◌, ◌<◌, ◌≡◌, ◌≢◌, refl, ◌∙◌, ap, arith, min, false, some, List, [], ◌∷◌, ◌++◌, fun_ext,
  update-ne, none,
}
use nano_trade.Base.Outcome.{ok}
use nano_trade.Common.MemPool.{MemPool}
use nano_trade.Exchange.Book.{
  MeOrderBook, MeOrder, Message, Orders, order, to_client, to_market, order_at, put_qty,
}
use nano_trade.Exchange.Book.Links.{order_next, order_prev, order_info, order_free}
use nano_trade.Exchange.Book.Levels.{get_orders_at_price, price_to_index}
use nano_trade.Exchange.Book.Orders.{remove_order}
use nano_trade.Exchange.Book.Notices.{
  Aggressor, aggressor_fill, passive_fill, trade_update, gone_update,
}
use nano_trade.Exchange.Book.Matching.{match}
use nano_trade.Exchange.Book.Fills.{sub_self}
use nano_trade.Exchange.Book.Queues.{HasOrders, IsFiled, IsQueue}
use nano_trade.Exchange.Book.Removal.{IsGone, remove_order-HasOrders}

-- What the book sends about a fill that takes all of an order, of which the aggressor wants `qty`.
abbrev pub taken_messages : Aggressor → MeOrder → (qty : ℕ) → List Message → List Message
taken_messages a order qty sent =
    (((sent ++ to_client (aggressor_fill a order order.qty (qty - order.qty)) ∷ [])
        ++ to_client (passive_fill a order order.qty) ∷ [])
      ++ to_market (trade_update a order order.qty) ∷ [])
    ++ to_market (gone_update a order) ∷ []

-- The book before the order leaves it.
abbrev pub emptied : Aggressor → MeOrderBook → (o qty : ℕ) → MeOrderBook
emptied a b o qty = record b {
  order_pool = put_qty b.order_pool o 0;
  sent = taken_messages a (order_at b o) qty b.sent;
}

min-large : (l q : ℕ) → q ≤ l → min l q ≡ q
min-large l q h = omega arith

module _ (p : Orders) (o v : ℕ) where
  next-put_qty : order_next (put_qty p o v) ≡ order_next p
  unfolding put_qty
  next-put_qty = fun_ext λ j. ground arith

  prev-put_qty : order_prev (put_qty p o v) ≡ order_prev p
  unfolding put_qty
  prev-put_qty = fun_ext λ j. ground arith

  pub free-put_qty : order_free (put_qty p o v) ≡ order_free p
  unfolding put_qty
  free-put_qty = fun_ext λ j. ground arith

  pub put_qty-size : MemPool.size (put_qty p o v) ≡ MemPool.size p
  unfolding put_qty
  put_qty-size = refl

  put_qty-IsFiled : IsFiled (order p o) → IsFiled (order (put_qty p o v) o)
  unfolding put_qty
  put_qty-IsFiled f = record { client = ground (arith, f.client); id = ground (arith, f.id) }

  pub put_qty-ne : (j : ℕ) → j ≢ o → order_info (put_qty p o v) j ≡ order_info p j
  unfolding put_qty
  put_qty-ne j n =
      ap (λ c. record c.object { prev_order = none; next_order = none }) (update-ne p.store o _ j n)

  pub put_qty-IsQueue : (os : List ℕ) → IsQueue p os → IsQueue (put_qty p o v) os
  put_qty-IsQueue [] h = h
  put_qty-IsQueue (x ∷ xs) h = record {
    links = rw (next-put_qty, prev-put_qty) h.links;
    distinct = h.distinct;
  }

module _ (a : Aggressor) (b : MeOrderBook) (o l qty : ℕ)
    (known : get_orders_at_price (order_at b o).price b ≡ ok (some l, b))
    (f : IsFiled (order_at b o)) (in_pool : o < b.order_pool.size)
    (used : order_free b.order_pool o ≡ false) where
  emptied-known :
      get_orders_at_price (order_at (emptied a b o qty) o).price (emptied a b o qty)
      ≡ ok (some l, emptied a b o qty)
  unfolding get_orders_at_price price_to_index put_qty
  emptied-known = ground (arith, known)

  match-emptied :
      (b' : MeOrderBook)
      → (order_at b o).qty ≤ qty
      → remove_order o (emptied a b o qty) ≡ ok (tt, b')
      → match a o qty b ≡ ok (qty - (order_at b o).qty, b')
  unfolding match
  match-emptied b' le runs =
      rw
        (
          min-large qty (order_at b o).qty le,
          sub_self (order_at b o).qty,
          (rw (sub_self (order_at b o).qty) at runs),
        )
        refl

  pub match-taken :
      (xs ys : List ℕ)
      → HasOrders b l (xs ++ o ∷ ys)
      → xs ++ ys ≢ []
      → (order_at b o).qty ≤ qty
      → (b' : MeOrderBook) × (match a o qty b ≡ ok (qty - (order_at b o).qty, b'))
        × HasOrders b' l (xs ++ ys)
        × IsGone (emptied a b o qty) b' o
  match-taken xs ys h ne le =
      let (b', runs, has, gone) =
        remove_order-HasOrders (emptied a b o qty) o l emptied-known
          (put_qty-IsFiled b.order_pool o 0 f) (rw (put_qty-size b.order_pool o 0) in_pool)
          (ap (λ g. g o) (free-put_qty b.order_pool o 0) ∙ used) xs ys
          (record { first = h.first; queue = put_qty-IsQueue b.order_pool o 0 _ h.queue }) ne in
      (b', match-emptied b' le runs, has, gone)
