-- ===== src/Exchange/Book/Cancels.antt =====
-- `cancel` of `MEOrderBook` (exchange/matcher/me_order_book.cpp) on an order that is alone in its price
-- level, and a second time.
use nano_trade.Base.{
  ℕ, ◌<◌, ◌≡◌, refl, ap, ◌∙◌, subst, subst₂, append_assoc, arith, ltb, true, none, some, List, [],
  ◌∷◌, ◌++◌,
}
use nano_trade.Base.Outcome.{ok}
use nano_trade.Common.Types.{me_max_num_clients, me_max_order_ids}
use nano_trade.Exchange.Book.{MeOrderBook, MeOrder, Message, to_client, to_market, order_at}
use nano_trade.Exchange.Book.Notices.{rejected_response, canceled_response, cancel_update}
use nano_trade.Exchange.Book.Matching.{find_client_order, cancel}
use nano_trade.Exchange.Book.Orders.{remove_order}
use nano_trade.Exchange.Book.Lone.{IsAlone, IsCleared, remove_order-IsCleared}

abbrev pub with_sent : MeOrderBook → List Message → MeOrderBook
with_sent b sent = record b { sent = sent }

module _ (b : MeOrderBook) (client_id order_id ticker_id : ℕ)
    (client : client_id < me_max_num_clients) (id : order_id < me_max_order_ids) where
  pub cancel-rejected :
      b.cid_oid_to_order client_id order_id ≡ none
      → cancel client_id order_id ticker_id b
        ≡ ok (
          tt,
          with_sent b (b.sent ++ to_client (rejected_response client_id order_id ticker_id) ∷ []),
        )
  unfolding cancel find_client_order
  cancel-rejected e =
      let c : ltb client_id me_max_num_clients ≡ true = ground (arith, client) in
      let d : ltb order_id me_max_order_ids ≡ true = ground (arith, id) in rw (c, d, e) refl

  cancel-removed :
      (o : ℕ) (b' : MeOrderBook)
      → b.cid_oid_to_order client_id order_id ≡ some o
      → remove_order o b ≡ ok (tt, b')
      → cancel client_id order_id ticker_id b
        ≡ ok (
          tt,
          with_sent b' (
              (b'.sent ++ to_market (cancel_update ticker_id (order_at b o)) ∷ [])
              ++ to_client (canceled_response client_id order_id ticker_id (order_at b o)) ∷ []),
        )
  unfolding cancel find_client_order
  cancel-removed o b' e runs =
      let c : ltb client_id me_max_num_clients ≡ true = ground (arith, client) in
      let d : ltb order_id me_max_order_ids ≡ true = ground (arith, id) in rw (c, d, e, runs) refl

-- The book after `remove_order` and the messages `ms`.
pub record IsCanceled (b b' : MeOrderBook) (o l i : ℕ) (ls : List ℕ) (ms : List Message)
    : Type 0 where
  pub removed : MeOrderBook
  pub cleared : IsCleared b removed o l i ls
  pub book : b' ≡ with_sent removed (b.sent ++ ms)

-- What a cancel that is carried out sends.
abbrev pub cancel_messages : (client_id order_id ticker_id : ℕ) → MeOrder → List Message
cancel_messages client_id order_id ticker_id order =
    to_market (cancel_update ticker_id order)
    ∷ to_client (canceled_response client_id order_id ticker_id order)
    ∷ []

-- A cancel of an order that is filed under the client and the number that it names, and that is
-- alone in the level of its price, where both blocks are in use and the levels of its side form a
-- ring from the best price to the worst with that level anywhere among them: `cancel` ends without
-- a fault. The other levels are then the ring of the side, in the same order, and the side points
-- at the best of them, or at none when none is left; the blocks of the order and of the level, and
-- no others, have become free; the table of prices and the client's entry lead nowhere; no order
-- changes but in its links; the update of the market and the response to the client go out, in this
-- order. A second such cancel is rejected and only sends that.
pub cancel-IsCanceled :
    (b : MeOrderBook) (client_id order_id ticker_id o l i : ℕ) (xs ys : List ℕ)
    → (order_at b o).client_id ≡ client_id
    → (order_at b o).client_order_id ≡ order_id
    → b.cid_oid_to_order client_id order_id ≡ some o
    → IsAlone b o l i xs ys
    → (b' : MeOrderBook) × (cancel client_id order_id ticker_id b ≡ ok (tt, b'))
      × IsCanceled b b' o l i
          (xs ++ ys)
          (cancel_messages client_id order_id ticker_id (order_at b o))
      × (cancel client_id order_id ticker_id b'
          ≡ ok (
            tt,
            with_sent b'
                (b'.sent ++ to_client (rejected_response client_id order_id ticker_id) ∷ []),
          ))
cancel-IsCanceled b client_id order_id ticker_id o l i xs ys same_client same_id filed a =
    let (b₁, runs, cleared) = remove_order-IsCleared b o l i xs ys a in
    let client : client_id < me_max_num_clients =
      subst (λ c. c < me_max_num_clients) same_client a.ids.client in
    let id : order_id < me_max_order_ids = subst (λ c. c < me_max_order_ids) same_id a.ids.id in
    let update = cancel_update ticker_id (order_at b o) in
    let response = canceled_response client_id order_id ticker_id (order_at b o) in
    let b₂ = with_sent b₁ ((b₁.sent ++ to_market update ∷ []) ++ to_client response ∷ []) in
    let forgotten : b₁.cid_oid_to_order client_id order_id ≡ none =
      subst₂ (λ c d. b₁.cid_oid_to_order c d ≡ none) same_client same_id cleared.forgotten in
    (
      b₂,
      cancel-removed b client_id order_id ticker_id client id o b₁ filed runs,
      record {
        removed = b₁;
        cleared = cleared;
        book = ap (with_sent b₁) (
            append_assoc b₁.sent (to_market update ∷ []) (to_client response ∷ [])
            ∙ ap (λ s. s ++ to_market update ∷ to_client response ∷ []) cleared.sent);
      },
      cancel-rejected b₂ client_id order_id ticker_id client id forgotten,
    )
