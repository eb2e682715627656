-- ===== src/Trading/MarketOrderBook/Adds.antt =====
-- `onMarketUpdate` on an order that joins the best level of the bids.
use nano_trade.Base.{
  ℕ, ◌+◌, ◌≤◌, ◌<◌, ◌^◌, ◌≡◌, ◌∙◌, refl, sym, ap, ap₂, subst, arith, true, false, none, some, List,
  [], ◌∷◌, ◌++◌, update, update_self,
}
use nano_trade.Base.Lists.{All, All-map, All-append, NotIn, last}
use nano_trade.Base.Int.{pos, ◌+ℤ◌}
use nano_trade.Base.Outcome.{ok}
use nano_trade.Base.Linked.{appended-info, appended-InRing}
use mathlib.Core.Bool.{true≢false}
use nano_trade.Exchange.Messages.{MeMarketUpdate, MarketUpdateType}
use nano_trade.Common.Types.{Side, to_qty, me_max_price_levels, me_max_order_ids}
use nano_trade.Common.MemPool.{allocate}
use nano_trade.Common.MemPool.Count.{free_count}
use nano_trade.Common.MemPool.Full.{IsReady, Allocated, allocate-Allocated}
use nano_trade.Trading.MarketOrder.{MarketOrder}
use nano_trade.Trading.MarketOrderBook.{MarketOrderBook, Notice, Orders, order, level_at}
use nano_trade.Trading.MarketOrderBook.Levels.{get_orders_at_price}
use nano_trade.Trading.MarketOrderBook.Orders.{allocate_order}
use nano_trade.Trading.MarketOrderBook.Queues.{order_info, market_orders}
use nano_trade.Trading.MarketOrderBook.Updates.{
  new_order, is_trade, bid_updated, apply_update, update_bbo, update_bid, on_market_update,
}
use nano_trade.Trading.MarketOrderBook.Best.{total, Holds, best_of-total}
use nano_trade.Trading.MarketOrderBook.Joins.{
  get_orders_at_price-inside, joined, add_order-joined, appended-size, taken-info, taken-order,
  taken-Queue, total-away, total-append, ask_updated-buy,
}

-- An order that may join the orders `first ∷ rest` of the level `l`, the best of the bids.
pub record CanJoin (b : MarketOrderBook) (u : MeMarketUpdate) (l first : ℕ) (rest : List ℕ)
    : Type 0 where
  pub is_add : u.type ≡ MarketUpdateType.add
  pub is_bid : u.side ≡ Side.buy
  pub best : b.bids_by_price ≡ some l
  pub same_price : (level_at b l).price ≡ u.price
  pub offset : ℕ
  pub in_window : (u.price ≡ b.base_price +ℤ pos offset) × (offset < me_max_price_levels)
  pub known : b.price_orders_at_price offset ≡ some l
  pub fits : u.order_id < me_max_order_ids
  pub holds : Holds b l first rest
  pub ready : IsReady b.order_pool
  pub room : 2 ≤ free_count b.order_pool
  pub used : All (λ o. (b.order_pool.store o).is_free ≡ false) (first ∷ rest)

-- The order of the update `u` is the last of its level.
pub record HasJoined (b b' : MarketOrderBook) (u : MeMarketUpdate) (l first o : ℕ) (rest : List ℕ)
    : Type 0 where
  pub holds : Holds b' l first (rest ++ o ∷ [])
  pub filed : b'.oid_to_order u.order_id ≡ some o
  pub order_qty : (order b'.order_pool o).qty ≡ u.qty
  pub bbo : b'.bbo ≡ record b.bbo {
    bid_price = u.price;
    bid_qty = to_qty (total (order_info b.order_pool) (first ∷ rest) + u.qty);
  }
  pub told :
      b'.notices ≡ b.notices ++ Notice.order_book_update u.ticker_id u.price u.side b'.bbo ∷ []

module _ (b : MarketOrderBook) (u : MeMarketUpdate) (l first : ℕ) (rest : List ℕ)
    (c : CanJoin b u l first rest) where
  abbrev new : ℕ
  new = b.order_pool.next_free_index

  away : NotIn new (first ∷ rest)
  away =
      All-map (first ∷ rest)
        (λ x f e.
          true≢false (sym c.ready.ready ∙ ap (λ i. (b.order_pool.store i).is_free) (sym e) ∙ f))
        c.used

  reaches : bid_updated b u ≡ true
  unfolding bid_updated
  reaches = rw (c.best, c.is_bid, c.same_price) (ground arith)

  module _ (q : Orders) (a : Allocated b.order_pool q (new_order u)) where
    abbrev full : MarketOrderBook
    full = joined (record b { order_pool = q }) first new rest

    applied : allocate b.order_pool (new_order u) ≡ ok (new, q) → apply_update u b ≡ ok (tt, full)
    unfolding apply_update allocate_order
    applied e =
        rw (c.is_add, allocate_order, e)
          (add_order-joined (record b { order_pool = q }) new l first rest
            (ap (λ p. get_orders_at_price p (record b { order_pool = q }))
                (ap (λ x. x.price) (taken-order b.order_pool q _ a))
              ∙ get_orders_at_price-inside (record b { order_pool = q }) u.price c.offset
                  c.in_window.0 c.in_window.1
              ∙ ap (λ x. ok (x, record b { order_pool = q })) c.known)
            (subst (λ x. x.order_id < me_max_order_ids) (sym (taken-order b.order_pool q _ a))
              c.fits)
            c.holds.head (taken-Queue b.order_pool q _ a first rest away c.holds.queue))

    info : order_info full.order_pool ≡ order_info q
    info = appended-info market_orders q first new (last first rest)

    new_info : order_info q new ≡ new_order u
    new_info =
        ap {A = MarketOrder} {B = MarketOrder}
          (λ x. record x { prev_order = none; next_order = none }) (taken-order b.order_pool q _ a)

    full_total :
        total (order_info full.order_pool) (first ∷ rest ++ new ∷ [])
        ≡ total (order_info b.order_pool) (first ∷ rest) + u.qty
    full_total =
        ap (λ f. total f (first ∷ rest ++ new ∷ [])) info
        ∙ total-append (order_info q) (first ∷ rest) new
        ∙ ap₂ (λ x y. x + y.qty)
            (total-away (order_info q) (order_info b.order_pool) new (first ∷ rest)
              (taken-info b.order_pool q _ a) away)
            new_info

    full-Holds : Holds full l first (rest ++ new ∷ [])
    full-Holds = record {
      head = c.holds.head;
      queue =
          appended-InRing market_orders q first new rest
            (taken-Queue b.order_pool q _ a first rest away c.holds.queue) away;
      in_pool =
          subst (λ n. All (λ o. o < n) (first ∷ rest ++ new ∷ []))
            (sym (appended-size q first new (last first rest) ∙ a.same_size))
            (All-append _ (first ∷ rest) (new ∷ []) c.holds.in_pool (c.ready.in_range, tt));
      qty_fits =
          subst (λ x. x.qty < 2 ^ 32)
            (sym (ap (λ f. f first) info ∙ taken-info b.order_pool q _ a first away.0))
            c.holds.qty_fits;
    }

    -- The book with its new best bid, before the engine is told.
    abbrev quoted : MarketOrderBook
    quoted = record full {
      bbo = record b.bbo {
        bid_price = u.price;
        bid_qty = to_qty (total (order_info b.order_pool) (first ∷ rest) + u.qty);
      };
    }

    update_bid-quoted : update_bid full ≡ ok (tt, quoted)
    unfolding update_bid
    update_bid-quoted =
        rw
          (
            c.best,
            best_of-total full l first (rest ++ new ∷ []) full-Holds,
            full_total,
            c.same_price,
          )
          refl

    runs :
        allocate b.order_pool (new_order u) ≡ ok (new, q)
        → on_market_update u b
          ≡ ok (
            tt,
            record quoted {
              notices =
                  b.notices ++ Notice.order_book_update u.ticker_id u.price u.side quoted.bbo ∷ [];
            },
          )
    unfolding on_market_update update_bbo
    runs e =
        rw
          (
            ap is_trade c.is_add,
            reaches,
            ask_updated-buy b u c.is_bid,
            applied e,
            update_bid-quoted,
          )
          refl

  -- An ADD of a bid at the price of the best level of the bids, which is filed under the price and
  -- whose orders are a ring of blocks in use, with an order number inside the array and room in the
  -- pool of orders: it ends without a fault, the order is the last in the ring of the level and is
  -- filed under its number, the best bid is that price with the sum of the quantities before and of
  -- the new one, modulo 2 ^ 32, the best ask stays, and the trade engine is told once, with the new
  -- prices.
  pub on_market_update-HasJoined :
      (b' : MarketOrderBook) × (on_market_update u b ≡ ok (tt, b'))
      × HasJoined b b' u l first b.order_pool.next_free_index rest
  on_market_update-HasJoined =
      let (q, e, a) = allocate-Allocated b.order_pool (new_order u) c.ready c.room in
      (
        record (quoted q a) {
          notices =
              b.notices
              ++ Notice.order_book_update u.ticker_id u.price u.side (quoted q a).bbo ∷ [];
        },
        runs q a e,
        record {
          holds = record {
            head = (full-Holds q a).head;
            queue = (full-Holds q a).queue;
            in_pool = (full-Holds q a).in_pool;
            qty_fits = (full-Holds q a).qty_fits;
          };
          filed =
              ap (λ x. update b.oid_to_order x.order_id (some new) u.order_id)
                (taken-order b.order_pool q _ a)
              ∙ update_self b.oid_to_order u.order_id (some new);
          order_qty = ap (λ x. x.qty) (ap (λ f. f new) (info q a) ∙ new_info q a);
          bbo = refl;
          told = refl;
        },
      )
