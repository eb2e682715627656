-- ===== src/Exchange/MatchingEngine/Handling.antt =====
-- What becomes of a request: `processClientRequest` (exchange/matcher/matching_engine.h) with the book of
-- the instrument behind it.
use nano_trade.Base.{
  ℕ, ◌≤◌, ◌<◌, ==-ne, ◌≡◌, ◌≢◌, refl, sym, arith, some, List, [], ◌∷◌, ◌++◌, subst,
}
use nano_trade.Base.Lists.{All-map}
use nano_trade.Base.Int.{ℤ}
use nano_trade.Base.Outcome.{ok}
use nano_trade.Common.Types.{me_max_tickers}
use nano_trade.Exchange.Messages.{MeClientRequest, ClientRequestType}
use nano_trade.Exchange.Book.{MeOrderBook, to_client, order_at}
use nano_trade.Exchange.Book.Notices.{rejected_response}
use nano_trade.Exchange.Book.Levels.{get_orders_at_price, price_to_index}
use nano_trade.Exchange.Book.Matching.{
  generate_new_market_order_id, check_for_match, rest_order, add,
}
use nano_trade.Exchange.Book.Resting.{check_for_match-nothing, rest_order-IsRested}
use nano_trade.Exchange.Book.Fills.{cut}
use nano_trade.Exchange.Book.Priority.{FilledInOrder, check_for_match-FilledInOrder}
use nano_trade.Exchange.Book.Vacating.{price_to_index-rebest}
use nano_trade.Exchange.Book.Cancels.{with_sent, cancel-IsCanceled, cancel-rejected}
use nano_trade.Exchange.MatchingEngine.{MatchingEngine, apply_request, process_client_request}
use nano_trade.Exchange.MatchingEngine.Dispatch.{HasSent, process_client_request-HasSent}
use nano_trade.Exchange.MatchingEngine.Cases.{
  aggressor, accepting, CanFill, CanEnter, CanCancel, CanReject, CanHandle, fills, enters, cancels,
  rejects, Handled,
}

known-accepting :
    (b : MeOrderBook) (r : MeClientRequest) (p : ℤ) (l : ℕ)
    → get_orders_at_price p b ≡ ok (some l, b)
    → get_orders_at_price p (accepting b r) ≡ ok (some l, accepting b r)
unfolding get_orders_at_price price_to_index
known-accepting b r p l e = ground (arith, e)

module _ (b : MeOrderBook) (r : MeClientRequest) where
  apply-done :
      (b' : MeOrderBook)
      → r.type ≡ ClientRequestType.new
      → check_for_match (aggressor r b.next_market_order_id) r.qty (accepting b r) ≡ ok (0, b')
      → apply_request r b ≡ ok b'
  unfolding apply_request add generate_new_market_order_id
  apply-done b' is_new runs = rw (is_new, runs) refl

  apply-fills :
      (p : ℤ) (l k y : ℕ) (os ys : List ℕ) (c : CanFill b r p l k y os ys)
      → (b' : MeOrderBook) × (apply_request r b ≡ ok b') × Handled b r (fills p l k y os ys c) b'
  apply-fills p l k y os ys c =
      let a = aggressor r b.next_market_order_id in
      let (b', runs, filled) =
        check_for_match-FilledInOrder a (accepting b r) p l k y os ys c.sided c.best
          (known-accepting b r p l c.known) c.reach
          (record { first = c.orders.first; queue = c.orders.queue })
          (All-map (os ++ y ∷ ys) (λ j u. record { inside = u.inside; used = u.used }) c.held)
          c.resting c.next c.less in
      (
        b',
        apply-done b' c.is_new
            (subst (λ q. check_for_match a q (accepting b r) ≡ ok (0, b')) (sym c.wanted) runs),
        subst (λ q. FilledInOrder (cut a) l q k os y ys (accepting b r) b') (sym c.wanted) filled,
      )

  apply-left :
      (b' : MeOrderBook)
      → r.type ≡ ClientRequestType.new
      → 1 ≤ r.qty
      → check_for_match (aggressor r b.next_market_order_id) r.qty (accepting b r)
        ≡ ok (r.qty, accepting b r)
      → rest_order (aggressor r b.next_market_order_id) r.qty (accepting b r) ≡ ok (tt, b')
      → apply_request r b ≡ ok b'
  unfolding apply_request add generate_new_market_order_id
  apply-left b' is_new some_qty runs rests =
      rw (is_new, runs, ==-ne r.qty 0 (λ e. omega (arith, e, some_qty)), rests) refl

  apply-enters :
      (i : ℕ) (ls : List ℕ) (c : CanEnter b r i ls)
      → (b' : MeOrderBook) × (apply_request r b ≡ ok b') × Handled b r (enters i ls c) b'
  apply-enters i ls c =
      let a = aggressor r b.next_market_order_id in
      let (b', rests, rested) = rest_order-IsRested (accepting b r) a r.qty i ls c.room in
      (
        b',
        apply-left b' c.is_new c.something
            (check_for_match-nothing a (accepting b r) r.qty c.room.sided c.something c.nothing)
            rests,
        rested,
      )

  apply-cancels :
      (o l i : ℕ) (xs ys : List ℕ) (c : CanCancel b r o l i xs ys)
      → (b' : MeOrderBook) × (apply_request r b ≡ ok b') × Handled b r (cancels o l i xs ys c) b'
  unfolding apply_request
  apply-cancels o l i xs ys c =
      let a = c.alone in
      let (b', runs, canceled, again) =
        cancel-IsCanceled (with_sent b []) r.client_id r.order_id r.ticker_id o l i xs ys c.client
          c.id c.entry
          (record {
            index = price_to_index-rebest b (order_at b o).price i (with_sent b []) a.index refl;
            known = a.known;
            orders = record { first = a.orders.first; queue = a.orders.queue };
            ids = a.ids;
            inside = a.inside;
            used = a.used;
            level_inside = a.level_inside;
            level_used = a.level_used;
            has = record { first = a.has.first; ring = a.has.ring };
            ranked = a.ranked;
          }) in
      (b', rw (c.is_cancel, runs) refl, canceled)

  apply-rejects :
      (c : CanReject b r)
      → (b' : MeOrderBook) × (apply_request r b ≡ ok b') × Handled b r (rejects c) b'
  unfolding apply_request
  apply-rejects c = (
    with_sent b (to_client (rejected_response r.client_id r.order_id r.ticker_id) ∷ []),
    rw
        (
          c.is_cancel,
          cancel-rejected (with_sent b []) r.client_id r.order_id r.ticker_id c.client c.id c.entry,
        )
        refl,
    refl,
  )

  apply_request-Handled :
      (c : CanHandle b r) → (b' : MeOrderBook) × (apply_request r b ≡ ok b') × Handled b r c b'
  apply_request-Handled (fills p l k y os ys c) = apply-fills p l k y os ys c
  apply_request-Handled (enters i ls c) = apply-enters i ls c
  apply_request-Handled (cancels o l i xs ys c) = apply-cancels o l i xs ys c
  apply_request-Handled (rejects c) = apply-rejects c

-- A request for an instrument in range, which is one of four. A new order, to buy or to sell, whose
-- price reaches the best level of the other side and that wants, of the orders there, the oldest in
-- whole and less than all of the next one; those orders are of the price of the level and for at
-- least one, with blocks in use and identifiers inside the arrays. A new order, to buy or to sell,
-- for at least one, with identifiers inside the arrays, that reaches nothing and whose price is in
-- the window and has no level yet; both pools are ready with two free blocks, and the levels of its
-- side are a ring of blocks in use from the best price to the worst, none at the same price. A
-- cancel of an order that is filed under the identifiers of the request and alone in its level,
-- where both blocks are in use and the levels of its side are a ring from the best price to the
-- worst. A cancel, with identifiers inside the arrays, of an order that the book does not have.
-- `process_client_request` ends without a fault, and the book of the instrument is, in turn: the
-- one in which those orders are filled in the order of their arrival; the one in which the order
-- rests, alone in a new level at its place among the levels of its side; the one without the order
-- and its level; the one from before. A new order is given the next number of the book. The
-- messages are, in turn: ACCEPTED and those of the fills; ACCEPTED and the ADD; the update and the
-- response of the cancel; CANCEL_REJECTED alone. The responses among them go to the one outgoing
-- queue and the market updates to the other, both in order, and every other book is as it was.
pub process_client_request-Handled :
    (e : MatchingEngine) (r : MeClientRequest)
    → r.ticker_id < me_max_tickers
    → (c : CanHandle (e.ticker_order_book r.ticker_id) r)
    → (f : MatchingEngine) × (process_client_request e r ≡ ok f)
      × Handled (e.ticker_order_book r.ticker_id) r c (f.ticker_order_book r.ticker_id)
      × HasSent e f (f.ticker_order_book r.ticker_id).sent
      × ((t : ℕ) → t ≢ r.ticker_id → f.ticker_order_book t ≡ e.ticker_order_book t)
process_client_request-Handled e r h c =
    let book = e.ticker_order_book r.ticker_id in
    let (b, applied, handled) = apply_request-Handled book r c in
    let (f, runs, sent, same, others) = process_client_request-HasSent e r b h applied in
    (
      f,
      runs,
      subst (Handled book r c) (sym same) handled,
      subst (λ k. HasSent e f (MeOrderBook.sent k)) (sym same) sent,
      others,
    )
