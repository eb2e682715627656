-- ===== src/Exchange/MatchingEngine.antt =====
-- exchange/matcher/matching_engine.h and matching_engine.cpp: the books of the instruments between
-- the queue of requests and the queues of responses and market updates.
pub mod Dispatch
pub mod Cases
pub mod Handling
mod Tests
use nano_trade.Base.{ℕ, not, ltb, if◌then◌else◌, update, none, some, List, [], ◌∷◌}
use nano_trade.Base.Int.{ℤ}
use nano_trade.Base.Outcome.{Outcome, ok, fault, fatal, out_of_range, and_then}
use nano_trade.Common.Types.{me_max_tickers}
use nano_trade.Common.LfQueue.{LfQueue, push, get_next_to_read, update_read_index}
use nano_trade.Exchange.Messages.{
  MeClientRequest, ClientRequestType, MeClientResponse, MeMarketUpdate,
}
use nano_trade.Exchange.Book
use nano_trade.Exchange.Book.{MeOrderBook, Message, to_client, to_market}
use nano_trade.Exchange.Book.Matching

pub record MatchingEngine : Type 0 where
  pub ticker_order_book : ℕ → MeOrderBook
  pub incoming_requests : LfQueue MeClientRequest
  pub outgoing_ogw_responses : LfQueue MeClientResponse
  pub outgoing_md_updates : LfQueue MeMarketUpdate

unfoldable pub init :
    LfQueue MeClientRequest
    → LfQueue MeClientResponse
    → LfQueue MeMarketUpdate
    → (ℕ → ℤ)
    → MatchingEngine
init requests responses updates ticker_base_prices = record {
  ticker_order_book = λ i. Book.init i (ticker_base_prices i);
  incoming_requests = requests;
  outgoing_ogw_responses = responses;
  outgoing_md_updates = updates;
}

-- `sendClientResponse` and `sendMarketUpdate`
unfoldable pub send_message : MatchingEngine → Message → MatchingEngine
send_message e (to_client r) = record e { outgoing_ogw_responses = push e.outgoing_ogw_responses r }
send_message e (to_market u) = record e { outgoing_md_updates = push e.outgoing_md_updates u }

unfoldable pub send_messages : MatchingEngine → List Message → MatchingEngine
unfolding send_message
send_messages e [] = e
send_messages e (m ∷ ms) = send_messages (send_message e m) ms

-- What a request makes of the book of its instrument, from which all earlier messages have been sent.
unfoldable pub apply_request : MeClientRequest → MeOrderBook → Outcome MeOrderBook
apply_request r book =
    let fresh = record book { sent = [] } in
    elim r.type [
      | ClientRequestType.new ↦
          and_then (Matching.add r.client_id r.order_id r.ticker_id r.side r.price r.qty fresh)
            λ (_, b). ok b
      | ClientRequestType.cancel ↦
          and_then (Matching.cancel r.client_id r.order_id r.ticker_id fresh) λ (_, b). ok b
      | ClientRequestType.invalid ↦ fault fatal
    ]

-- The array of books is indexed with no check. The messages of the book go out in the order in which
-- the book sends them.
unfoldable pub process_client_request : MatchingEngine → MeClientRequest → Outcome MatchingEngine
unfolding apply_request send_messages
process_client_request e r =
    if not (ltb r.ticker_id me_max_tickers)
    then fault out_of_range
    else and_then (apply_request r (e.ticker_order_book r.ticker_id)) λ b. ok (
        send_messages (record e { ticker_order_book = update e.ticker_order_book r.ticker_id b })
          b.sent)

-- One round of the loop of `run`.
unfoldable pub run_once : MatchingEngine → Outcome MatchingEngine
unfolding process_client_request
run_once e = elim (get_next_to_read e.incoming_requests) [
  | none ↦ ok e
  | some r ↦ and_then (process_client_request e r) λ f.
      and_then (update_read_index f.incoming_requests) λ q. ok (record f { incoming_requests = q })
]
