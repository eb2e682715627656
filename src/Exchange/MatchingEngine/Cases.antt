-- ===== src/Exchange/MatchingEngine/Cases.antt =====
-- The requests that `processClientRequest` (exchange/matcher/matching_engine.h) can get, by what its book
-- makes of them, and what the book is after each.
use nano_trade.Base.{ℕ, ◌+◌, ◌≤◌, ◌<◌, ◌≡◌, true, false, ◌||◌, none, some, List, [], ◌∷◌, ◌++◌}
use nano_trade.Base.Lists.{All}
use nano_trade.Base.Int.{ℤ}
use nano_trade.Base.Outcome.{ok}
use nano_trade.Common.Types.{is_buy, is_sell, me_max_num_clients, me_max_order_ids, to_u64}
use nano_trade.Exchange.Messages.{MeClientRequest, ClientRequestType}
use nano_trade.Exchange.Book.{MeOrderBook, to_client, order_at}
use nano_trade.Exchange.Book.Notices.{Aggressor, accepted_response, rejected_response}
use nano_trade.Exchange.Book.Links.{order_info}
use nano_trade.Exchange.Book.Levels.{get_orders_at_price}
use nano_trade.Exchange.Book.Matching.{does_not_reach, opposite_best}
use nano_trade.Exchange.Book.Resting.{NothingReached, CanRest, IsRested}
use nano_trade.Exchange.Book.Queues.{HasOrders}
use nano_trade.Exchange.Book.Fills.{cut}
use nano_trade.Exchange.Book.Frames.{contents, total_qty, IsResting, IsHeld}
use nano_trade.Exchange.Book.Priority.{FilledInOrder}
use nano_trade.Exchange.Book.Lone.{IsAlone}
use nano_trade.Exchange.Book.Cancels.{IsCanceled, cancel_messages, with_sent}

-- The order of a request, with the number that the book gives it.
abbrev pub aggressor : MeClientRequest → ℕ → Aggressor
aggressor r id = record {
  client_id = r.client_id;
  client_order_id = r.order_id;
  ticker_id = r.ticker_id;
  side = r.side;
  price = r.price;
  new_market_order_id = id;
}

-- The book once the order of a request has been accepted.
abbrev pub accepting : MeOrderBook → MeClientRequest → MeOrderBook
accepting b r = record b {
  next_market_order_id = to_u64 (b.next_market_order_id + 1);
  sent = to_client (accepted_response (aggressor r b.next_market_order_id) r.qty) ∷ [];
}

-- A new order whose price reaches the best level `l` of the other side, and that wants the orders `os` of
-- it in whole and `k` of the next one, less than that has.
pub record CanFill (b : MeOrderBook) (r : MeClientRequest) (p : ℤ) (l k y : ℕ) (os ys : List ℕ)
    : Type 0 where
  pub is_new : r.type ≡ ClientRequestType.new
  pub sided : (is_buy r.side || is_sell r.side) ≡ true
  pub best : opposite_best b r.side ≡ some l
  pub known : get_orders_at_price p b ≡ ok (some l, b)
  pub reach : does_not_reach r.side r.price p ≡ false
  pub orders : HasOrders b l (os ++ y ∷ ys)
  pub held : All (IsHeld b) (os ++ y ∷ ys)
  pub resting : All (IsResting p) (contents b os)
  pub next : IsResting p (order_info b.order_pool y)
  pub less : k < (order_at b y).qty
  pub wanted : r.qty ≡ total_qty (contents b os) + k

-- A new order that finds nothing to match and whose price has no level yet.
pub record CanEnter (b : MeOrderBook) (r : MeClientRequest) (i : ℕ) (ls : List ℕ) : Type 0 where
  pub is_new : r.type ≡ ClientRequestType.new
  pub something : 1 ≤ r.qty
  pub nothing : NothingReached b (aggressor r b.next_market_order_id)
  pub room : CanRest (accepting b r) (aggressor r b.next_market_order_id) i ls

-- A cancel of an order that is alone in its level.
pub record CanCancel (b : MeOrderBook) (r : MeClientRequest) (o l i : ℕ) (xs ys : List ℕ)
    : Type 0 where
  pub is_cancel : r.type ≡ ClientRequestType.cancel
  pub client : (order_at b o).client_id ≡ r.client_id
  pub id : (order_at b o).client_order_id ≡ r.order_id
  pub entry : b.cid_oid_to_order r.client_id r.order_id ≡ some o
  pub alone : IsAlone b o l i xs ys

-- A cancel of an order that is not in the book.
pub record CanReject (b : MeOrderBook) (r : MeClientRequest) : Type 0 where
  pub is_cancel : r.type ≡ ClientRequestType.cancel
  pub client : r.client_id < me_max_num_clients
  pub id : r.order_id < me_max_order_ids
  pub entry : b.cid_oid_to_order r.client_id r.order_id ≡ none

pub data CanHandle (b : MeOrderBook) (r : MeClientRequest) : Type 0 where
  fills : (p : ℤ) (l k y : ℕ) (os ys : List ℕ) → CanFill b r p l k y os ys → CanHandle b r
  enters : (i : ℕ) (ls : List ℕ) → CanEnter b r i ls → CanHandle b r
  cancels : (o l i : ℕ) (xs ys : List ℕ) → CanCancel b r o l i xs ys → CanHandle b r
  rejects : CanReject b r → CanHandle b r

-- What the book is after a request.
abbrev pub Handled : (b : MeOrderBook) (r : MeClientRequest) → CanHandle b r → MeOrderBook → Type 0
Handled b r (fills p l k y os ys c) b' =
    FilledInOrder (cut (aggressor r b.next_market_order_id)) l r.qty k os y ys (accepting b r) b'
Handled b r (enters i ls c) b' =
    IsRested (accepting b r) b' (aggressor r b.next_market_order_id) r.qty i ls
Handled b r (cancels o l i xs ys c) b' =
    IsCanceled (with_sent b []) b' o l i (xs ++ ys)
      (cancel_messages r.client_id r.order_id r.ticker_id (order_at b o))
Handled b r (rejects c) b' =
    b' ≡ with_sent b (to_client (rejected_response r.client_id r.order_id r.ticker_id) ∷ [])
