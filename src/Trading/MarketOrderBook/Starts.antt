-- ===== src/Trading/MarketOrderBook/Starts.antt =====
-- `onMarketUpdate` on the first order of the bids.
use nano_trade.Base.{
  ℕ, ◌≤◌, ◌<◌, ◌≡◌, refl, ap, arith, false, Option, none, some, [], ◌∷◌, ◌++◌, update,
  if◌then◌else◌, update_self,
}
use nano_trade.Base.Int.{ℤ, pos, ◌+ℤ◌}
use nano_trade.Base.Outcome.{ok}
use nano_trade.Common.Types.{Side, is_buy, me_max_price_levels, me_max_order_ids}
use nano_trade.Common.MemPool.{allocate}
use nano_trade.Common.MemPool.Count.{free_count}
use nano_trade.Common.MemPool.Full.{IsReady, Allocated, allocate-Allocated}
use nano_trade.Exchange.Messages.{MeMarketUpdate, MarketUpdateType}
use nano_trade.Trading.MarketOrder.{MarketOrdersAtPrice}
use nano_trade.Trading.MarketOrderBook.{
  MarketOrderBook, Notice, Orders, Levels, order, level, level_at, put_prev_order, put_next_order,
  put_next_entry, put_prev_entry,
}
use nano_trade.Trading.MarketOrderBook.Levels.{
  add_orders_at_price, set_orders_at_price, add_to_side, start_side,
}
use nano_trade.Trading.MarketOrderBook.Orders.{add_order, allocate_order, allocate_level, set_order}
use nano_trade.Trading.MarketOrderBook.Updates.{
  new_order, is_trade, bid_updated, apply_update, update_bbo, on_market_update,
}
use nano_trade.Trading.MarketOrderBook.Joins.{
  price_to_index-inside, get_orders_at_price-inside, taken-order, ask_updated-buy,
}

-- A bid that comes to a book without bids, at a price without a level.
pub record CanStart (b : MarketOrderBook) (u : MeMarketUpdate) : Type 0 where
  pub is_add : u.type ≡ MarketUpdateType.add
  pub is_bid : u.side ≡ Side.buy
  pub no_bids : b.bids_by_price ≡ none
  pub offset : ℕ
  pub in_window : (u.price ≡ b.base_price +ℤ pos offset) × (offset < me_max_price_levels)
  pub unknown : b.price_orders_at_price offset ≡ none
  pub fits : u.order_id < me_max_order_ids
  pub orders_ready : IsReady b.order_pool
  pub orders_room : 2 ≤ free_count b.order_pool
  pub levels_ready : IsReady b.orders_at_price_pool
  pub levels_room : 2 ≤ free_count b.orders_at_price_pool

set_orders_at_price-inside :
    (b : MarketOrderBook) (price : ℤ) (i : ℕ) (v : _)
    → price ≡ b.base_price +ℤ pos i
    → i < me_max_price_levels
    → set_orders_at_price price v b
      ≡ ok (tt, record b { price_orders_at_price = update b.price_orders_at_price i v })
unfolding set_orders_at_price
set_orders_at_price-inside b price i v e h = rw (price_to_index-inside b price i e h) refl

-- The level as it is made for the order `o`.
abbrev fresh : MeMarketUpdate → (o : ℕ) → MarketOrdersAtPrice
fresh u o = record {
  side = u.side;
  price = u.price;
  first_mkt_order = some o;
  prev_entry = none;
  next_entry = none;
}

-- The levels once the new one is alone on its side.
abbrev ringed : Levels → ℕ → Levels
ringed p l = put_prev_entry (put_next_entry p l (some l)) l (some l)

-- The orders once the new one is alone on its level.
abbrev alone : Orders → ℕ → Orders
alone p o = put_next_order (put_prev_order p o (some o)) o (some o)

module _ (b : MarketOrderBook) (u : MeMarketUpdate) (c : CanStart b u) where
  abbrev o : ℕ
  o = b.order_pool.next_free_index

  abbrev l : ℕ
  l = b.orders_at_price_pool.next_free_index

  -- The price and the first order of the new level.
  abbrev pub best_level : MarketOrderBook → ℤ × Option ℕ
  best_level b' = ((level_at b' l).price, (level_at b' l).first_mkt_order)

  module _ (q : Orders) (a : Allocated b.order_pool q (new_order u)) (r : Levels)
      (d : Allocated b.orders_at_price_pool r (fresh u o)) where
    abbrev started : MarketOrderBook
    started = record b {
      order_pool = alone q o;
      orders_at_price_pool = ringed r l;
      price_orders_at_price = update b.price_orders_at_price c.offset (some l);
      bids_by_price = some l;
      oid_to_order = update b.oid_to_order u.order_id (some o);
    }

    fresh-level : level r l ≡ fresh u o
    fresh-level = rw d.blocks (ground arith)

    fresh-order : order q o ≡ new_order u
    fresh-order = taken-order b.order_pool q _ a

    abbrev linked : MarketOrderBook
    linked = record b { order_pool = alone q o; orders_at_price_pool = r }

    abbrev levelled : MarketOrderBook
    levelled = record linked {
      orders_at_price_pool = ringed r l;
      price_orders_at_price = update b.price_orders_at_price c.offset (some l);
      bids_by_price = some l;
    }

    best_none : (if is_buy u.side then b.bids_by_price else b.asks_by_price) ≡ none
    best_none = rw c.is_bid c.no_bids

    add_to_side-none :
        (x : MarketOrderBook)
        → add_to_side u.side u.price l none x
          ≡ ok (
            tt,
            record x {
              orders_at_price_pool = ringed x.orders_at_price_pool l;
              bids_by_price = some l;
            },
          )
    unfolding add_to_side start_side
    add_to_side-none x = rw c.is_bid refl

    add_level : add_orders_at_price l linked ≡ ok (tt, levelled)
    unfolding add_orders_at_price
    add_level =
        rw
          (
            fresh-level,
            set_orders_at_price-inside linked u.price c.offset (some l) c.in_window.0 c.in_window.1,
            best_none,
            add_to_side-none (record linked {
              price_orders_at_price = update b.price_orders_at_price c.offset (some l);
            }),
          )
          refl

    started-runs :
        allocate b.order_pool (new_order u) ≡ ok (o, q)
        → allocate b.orders_at_price_pool (fresh u o) ≡ ok (l, r)
        → apply_update u b ≡ ok (tt, started)
    unfolding apply_update allocate_order add_order allocate_level set_order
    started-runs e f =
        rw
          (
            c.is_add,
            allocate_order,
            e,
            fresh-order,
            get_orders_at_price-inside (record b { order_pool = q }) u.price c.offset c.in_window.0
                c.in_window.1,
            c.unknown,
            fresh-order,
            allocate_level,
            f,
            add_level,
          )
          (ground (arith, c.fits))

    first_level : best_level started ≡ (u.price, some o)
    unfolding put_next_entry put_prev_entry
    first_level = rw d.blocks (ground arith)

  misses : bid_updated b u ≡ false
  unfolding bid_updated
  misses = rw c.no_bids refl

  -- An ADD of a bid to a book without bids, at a price inside the window of the book that has no
  -- level, with an order number inside the array and room in both pools: it ends without a fault, a
  -- new level with that order is the best of the bids, but the best bid and offer that the trade
  -- engine is told of are still those from before.
  pub on_market_update-stale :
      (b' : MarketOrderBook) × (on_market_update u b ≡ ok (tt, b'))
      × (b'.bids_by_price ≡ some l)
      × (best_level b' ≡ (u.price, some o))
      × (b'.oid_to_order u.order_id ≡ some o)
      × (b'.bbo ≡ b.bbo)
      × (b'.notices ≡ b.notices ++ Notice.order_book_update u.ticker_id u.price u.side b.bbo ∷ [])
  unfolding on_market_update update_bbo
  on_market_update-stale =
      let (q, e, a) = allocate-Allocated b.order_pool (new_order u) c.orders_ready c.orders_room in
      let (r, f, d) =
        allocate-Allocated b.orders_at_price_pool (fresh u o) c.levels_ready c.levels_room in
      (
        record (started q a r d) {
          notices = b.notices ++ Notice.order_book_update u.ticker_id u.price u.side b.bbo ∷ [];
        },
        rw (ap is_trade c.is_add, misses, ask_updated-buy b u c.is_bid, started-runs q a r d e f)
            refl,
        refl,
        first_level q a r d,
        update_self b.oid_to_order u.order_id (some o),
        refl,
        refl,
      )
