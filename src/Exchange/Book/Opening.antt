-- ===== src/Exchange/Book/Opening.antt =====
-- `addOrder` of `MEOrderBook` (exchange/matcher/me_order_book.h) on an order whose price has no level
-- yet: a level is made for it.
use nano_trade.Base.{
  ℕ, ◌≤◌, ◌<◌, ◌≡◌, ◌≢◌, refl, sym, ◌∙◌, ap, arith, true, false, ◌||◌, update, some, none, List, [],
  ◌∷◌, subst, subst₂,
}
use nano_trade.Base.Outcome.{ok}
use nano_trade.Base.Lists.{All, All-map, All-both, NotIn}
use nano_trade.Common.Types.{is_buy, is_sell}
use nano_trade.Common.MemPool.Count.{free_count}
use nano_trade.Common.MemPool.Full.{IsReady, Allocated, allocate-Allocated}
use nano_trade.Exchange.Book.{
  MeOrderBook, MeOrdersAtPrice, Orders, Levels, order_at, level_at, put_prev_order, put_next_order,
}
use nano_trade.Exchange.Book.Links.{order_info, level_free, info-put_next, info-put_prev}
use nano_trade.Exchange.Book.Levels.{
  price_to_index, get_orders_at_price, comes_after, add_orders_at_price,
}
use nano_trade.Exchange.Book.Orders.{add_order}
use nano_trade.Exchange.Book.Queues.{HasOrders, IsFiled, filed, set_client_order-eq}
use nano_trade.Exchange.Book.Fifo.{Queue}
use nano_trade.Exchange.Book.Walk.{placed}
use nano_trade.Exchange.Book.Ladder.{HasLevels, IsRanked, level_price, Ladder}
use nano_trade.Exchange.Book.Placing.{ladder_with, add_orders_at_price-Ladder}
use nano_trade.Exchange.Book.Vacating.{price_to_index-rebest}
use nano_trade.Exchange.Book.Fresh.{
  made, made_price, made-IsLevelRing, placed-eq, IsRanked-eq, alone-Queue, allocate_level-eq,
}

-- An order at a price without a level, where one can be made.
pub record CanOpen (b : MeOrderBook) (o i : ℕ) (ls : List ℕ) : Type 0 where
  pub filed : price_to_index (order_at b o).price b ≡ ok (i, b)
  pub unknown : b.price_orders_at_price i ≡ none
  pub ids : IsFiled (order_at b o)
  pub sided : (is_buy (order_at b o).side || is_sell (order_at b o).side) ≡ true
  pub ready : IsReady b.orders_at_price_pool
  pub room : 2 ≤ free_count b.orders_at_price_pool
  pub has : HasLevels b (order_at b o).side ls
  pub ranked : IsRanked (order_at b o).side (level_price b) ls
  pub inside : All (λ l. l < b.orders_at_price_pool.size) ls
  pub used : All (λ l. level_free b.orders_at_price_pool l ≡ false) ls
  pub other_prices : All (λ l. (order_at b o).price ≢ level_price b l) ls

-- What `add_order` leaves: the levels `ls` with the new one in its place, which the order `o` is in.
pub record IsOpened (b b' : MeOrderBook) (o l i : ℕ) (ls : List ℕ) : Type 0 where
  pub has : HasLevels b' (order_at b o).side ls
  pub ranked : IsRanked (order_at b o).side (level_price b') ls
  pub price : level_price b' l ≡ (order_at b o).price
  pub orders : HasOrders b' l (o ∷ [])
  pub table : b'.price_orders_at_price ≡ update b.price_orders_at_price i (some l)
  pub info : order_info b'.order_pool ≡ order_info b.order_pool
  pub entry : b'.cid_oid_to_order (order_at b o).client_id (order_at b o).client_order_id ≡ some o
  pub sent : b'.sent ≡ b.sent

module _ (b : MeOrderBook) (o i : ℕ) (ls : List ℕ) (c : CanOpen b o i ls) where
  abbrev l : ℕ
  l = b.orders_at_price_pool.next_free_index

  -- The level as it is made for the order.
  abbrev fresh : MeOrdersAtPrice
  fresh = record {
    side = (order_at b o).side;
    price = (order_at b o).price;
    first_me_order = some o;
    prev_entry = none;
    next_entry = none;
  }

  abbrev alone : Orders
  alone = put_next_order (put_prev_order b.order_pool o (some o)) o (some o)

  -- The book with the level made.
  abbrev with_level : Levels → MeOrderBook
  with_level q = record b { order_pool = alone; orders_at_price_pool = q }

  free-NotIn :
      (ms : List ℕ) → All (λ m. level_free b.orders_at_price_pool m ≡ false) ms → NotIn l ms
  free-NotIn ms = All-map ms (λ m u e. ground (arith, u, e, c.ready.ready))

  module _ (q : Levels) (a : Allocated b.orders_at_price_pool q fresh) where
    abbrev b₁ : MeOrderBook
    b₁ = with_level q

    is_fresh : level_at b₁ l ≡ fresh
    is_fresh = made b.orders_at_price_pool q fresh a

    same_prices : All (λ m. level_price b m ≡ level_price b₁ m) ls
    same_prices =
        All-map ls (λ m n. sym (made_price b.orders_at_price_pool q fresh a m n))
          (free-NotIn ls c.used)

    same_place :
        ladder_with b₁ l ls
        ≡ placed (λ m. comes_after (order_at b o).side (order_at b o).price (level_price b m)) l ls
    same_place = placed-eq _ _ l ls (
        All-map ls
          (λ m e.
            ap (λ f. comes_after f.side f.price (level_price b₁ m)) is_fresh
            ∙ ap (comes_after (order_at b o).side (order_at b o).price) (sym e))
          same_prices)

    placed-level :
        (b' : MeOrderBook) × (add_orders_at_price l b₁ ≡ ok (tt, b'))
        × Ladder b₁ b' l i (ladder_with b₁ l ls)
    placed-level =
        add_orders_at_price-Ladder b₁ l i
          (subst (λ m. price_to_index m.price b₁ ≡ ok (i, b₁)) (sym is_fresh)
            (price_to_index-rebest b (order_at b o).price i b₁ c.filed refl))
          (subst (λ m. (is_buy m.side || is_sell m.side) ≡ true) (sym is_fresh) c.sided) ls
          (subst (λ m. HasLevels b₁ m.side ls) (sym is_fresh)
            (record {
              first = c.has.first;
              ring =
                  made-IsLevelRing b.orders_at_price_pool q fresh a ls (free-NotIn ls c.used)
                    c.has.ring;
            }))
          (subst (λ m. IsRanked m.side (level_price b₁) ls) (sym is_fresh)
            (IsRanked-eq (order_at b o).side _ _ ls same_prices c.ranked))
          (subst (λ n. All (λ m. m < n) ls) (sym a.same_size) c.inside) (free-NotIn ls c.used)
          (subst (λ f. All (λ m. f.price ≢ level_price b₁ m) ls) (sym is_fresh)
            (All-both ls (λ m n e d. n (d ∙ sym e)) c.other_prices same_prices))

  -- An order to buy or to sell whose identifiers are inside the arrays and whose price is in the
  -- window of the book and has no level, where the pool of levels is ready and has two free blocks,
  -- and the levels of its side form a ring of blocks in use from the best price to the worst, none
  -- of them at the same price: `add_order` ends without a fault; the levels of the side are then a
  -- ring with the new one before the first level that its price does not come after, still from the
  -- best price to the worst, and the side points at the best one. The new level has the price of
  -- the order and holds it alone, the table of prices and the client's entry lead to the two, no
  -- order changes but in its links, and nothing is sent.
  pub add_order-IsOpened :
      (b' : MeOrderBook) × (add_order o b ≡ ok (tt, b'))
      × IsOpened b b' o l i (
          placed (λ m. comes_after (order_at b o).side (order_at b o).price (level_price b m)) l ls)
  unfolding add_order get_orders_at_price
  add_order-IsOpened =
      let (q, made_level, a) = allocate-Allocated b.orders_at_price_pool fresh c.ready c.room in
      let start = record b { order_pool = alone } in
      let (b₂, runs, d) = placed-level q a in
      let placed_levels : HasLevels b₂ (order_at b o).side (
          placed (λ m. comes_after (order_at b o).side (order_at b o).price (level_price b m)) l
            ls) =
        subst₂ (λ m ms. HasLevels b₂ m.side ms) (is_fresh q a) (same_place q a) d.has in
      let same : b₂.order_pool ≡ alone = ap MeOrderBook.order_pool d.others in
      (
        filed b₂ (order_at b o) (some o),
        rw
            (
              c.filed,
              c.unknown,
              allocate_level-eq start fresh l q made_level,
              runs,
              set_client_order-eq b₂ (order_at b o) (some o) c.ids,
            )
            refl,
        record {
          has = record { first = placed_levels.first; ring = placed_levels.ring };
          ranked =
              subst₂ (λ m ms. IsRanked m.side (level_price b₂) ms) (is_fresh q a) (same_place q a)
                d.ranked;
          price = ap (λ f. (f l).price) d.info ∙ ap (λ m. m.price) (is_fresh q a);
          orders = record {
            first =
                ap (λ f. (f l).first_me_order) d.info ∙ ap (λ m. m.first_me_order) (is_fresh q a);
            queue = subst (λ p. Queue p o []) (sym same) (alone-Queue b.order_pool o);
          };
          table = d.table;
          info =
              ap order_info same
              ∙ info-put_next _ o (some o)
              ∙ info-put_prev b.order_pool o (some o);
          entry = ground arith;
          sent = ap MeOrderBook.sent d.others;
        },
      )
