-- ===== src/Exchange/MatchingEngine/Dispatch.antt =====
-- Where a request goes, and where the messages about it go.
use nano_trade.Base.{ℕ, ◌<◌, ◌≡◌, ◌≢◌, refl, ltb-lt, update, update_self, update-ne, List, [], ◌∷◌}
use nano_trade.Base.Outcome.{ok}
use nano_trade.Common.Types.{me_max_tickers}
use nano_trade.Common.LfQueue.{pushes}
use nano_trade.Exchange.Messages.{MeClientRequest, MeClientResponse, MeMarketUpdate}
use nano_trade.Exchange.Book.{MeOrderBook, Message, to_client, to_market}
use nano_trade.Exchange.MatchingEngine.{
  MatchingEngine, send_messages, apply_request, process_client_request,
}

-- The responses among the messages of a book.
abbrev pub responses : List Message → List MeClientResponse
responses [] = []
responses (to_client r ∷ ms) = r ∷ responses ms
responses (to_market u ∷ ms) = responses ms

-- The market updates among them.
abbrev pub market_updates : List Message → List MeMarketUpdate
market_updates [] = []
market_updates (to_client r ∷ ms) = market_updates ms
market_updates (to_market u ∷ ms) = u ∷ market_updates ms

-- An engine that has sent the messages of a list.
pub record HasSent (e f : MatchingEngine) (ms : List Message) : Type 0 where
  pub to_clients : f.outgoing_ogw_responses ≡ pushes e.outgoing_ogw_responses (responses ms)
  pub to_markets : f.outgoing_md_updates ≡ pushes e.outgoing_md_updates (market_updates ms)
  pub same_requests : f.incoming_requests ≡ e.incoming_requests

send_messages-HasSent : (ms : List Message) (e : MatchingEngine) → HasSent e (send_messages e ms) ms
unfolding send_messages pushes
send_messages-HasSent [] e = record { to_clients = refl; to_markets = refl; same_requests = refl }
send_messages-HasSent (to_client r ∷ ms) e =
    let h = send_messages-HasSent ms _ in
    record { to_clients = h.to_clients; to_markets = h.to_markets; same_requests = h.same_requests }
send_messages-HasSent (to_market u ∷ ms) e =
    let h = send_messages-HasSent ms _ in
    record { to_clients = h.to_clients; to_markets = h.to_markets; same_requests = h.same_requests }

send_messages-books :
    (ms : List Message) (e : MatchingEngine)
    → (send_messages e ms).ticker_order_book ≡ e.ticker_order_book
unfolding send_messages
send_messages-books [] e = refl
send_messages-books (to_client r ∷ ms) e = send_messages-books ms _
send_messages-books (to_market u ∷ ms) e = send_messages-books ms _

-- When the book of the request's instrument, in range, takes the request: the engine ends without a
-- fault, has put the responses of that book, in order, into the one queue and its market updates,
-- in order, into the other, keeps the new book, and leaves every other book as it was.
pub process_client_request-HasSent :
    (e : MatchingEngine) (r : MeClientRequest) (b : MeOrderBook)
    → r.ticker_id < me_max_tickers
    → apply_request r (e.ticker_order_book r.ticker_id) ≡ ok b
    → (f : MatchingEngine) × (process_client_request e r ≡ ok f)
      × HasSent e f b.sent
      × (f.ticker_order_book r.ticker_id ≡ b)
      × ((t : ℕ) → t ≢ r.ticker_id → f.ticker_order_book t ≡ e.ticker_order_book t)
unfolding process_client_request
process_client_request-HasSent e r b h applied =
    let g = record e { ticker_order_book = update e.ticker_order_book r.ticker_id b } in
    let sent = send_messages-HasSent b.sent g in
    let books = send_messages-books b.sent g in
    (
      send_messages g b.sent,
      rw (ltb-lt r.ticker_id me_max_tickers h, applied) refl,
      record {
        to_clients = sent.to_clients;
        to_markets = sent.to_markets;
        same_requests = sent.same_requests;
      },
      rw books (update_self e.ticker_order_book r.ticker_id b),
      λ t other. rw books (update-ne e.ticker_order_book r.ticker_id b t other),
    )
