-- ===== src/Exchange/Book/Resting.antt =====
-- An order that finds nothing to match in `MEOrderBook` (exchange/matcher/me_order_book.cpp), and rests at
-- a price that has no level yet.
use nano_trade.Base.{
  ℕ, zero, suc, ◌+◌, ◌≤◌, ◌<◌, ◌≡◌, ◌≢◌, ◌⊎◌, inl, inr, refl, sym, ◌∙◌, ap, arith, true, false,
  ◌||◌, ==-ne, update, update_self, some, none, List, [], ◌∷◌, ◌++◌, subst,
}
use nano_trade.Base.Int.{ℤ}
use nano_trade.Base.Outcome.{ok}
use nano_trade.Base.Lists.{All}
use nano_trade.Common.Types.{is_buy, is_sell, me_max_num_clients, me_max_order_ids}
use nano_trade.Common.MemPool.{allocate}
use nano_trade.Common.MemPool.Count.{free_count}
use nano_trade.Common.MemPool.Full.{IsReady, Allocated, allocate-Allocated}
use nano_trade.Exchange.Book.{MeOrderBook, MeOrder, Orders, to_market, order_at, level_at}
use nano_trade.Exchange.Book.Links.{order_info, level_free}
use nano_trade.Exchange.Book.Levels.{
  price_to_index, get_orders_at_price, get_next_priority, comes_after,
}
use nano_trade.Exchange.Book.Notices.{Aggressor, resting_order, add_update}
use nano_trade.Exchange.Book.Matching.{
  does_not_reach, opposite_best, match_loop, check_for_match, rest_order,
}
use nano_trade.Exchange.Book.Orders.{allocate_order}
use nano_trade.Exchange.Book.Queues.{HasOrders, IsFiled}
use nano_trade.Exchange.Book.Fills.{cut}
use nano_trade.Exchange.Book.Walk.{placed}
use nano_trade.Exchange.Book.Ladder.{HasLevels, IsRanked, level_price}
use nano_trade.Exchange.Book.Vacating.{price_to_index-rebest}
use nano_trade.Exchange.Book.Opening.{CanOpen, add_order-IsOpened}

-- The other side has no level, or its best level holds nothing that the price reaches.
abbrev pub NothingReached : MeOrderBook → Aggressor → Type 0
NothingReached b a =
    (opposite_best b a.side ≡ none)
    ⊎ ((l f : ℕ) × (opposite_best b a.side ≡ some l)
        × ((level_at b l).first_me_order ≡ some f)
        × (does_not_reach a.side a.price (order_at b f).price ≡ true))

match_loop-nothing :
    (fuel : ℕ) (a : Aggressor) (b : MeOrderBook) (qty : ℕ)
    → 1 ≤ fuel
    → 1 ≤ qty
    → NothingReached b a
    → match_loop fuel a qty b ≡ ok (qty, b)
unfolding match_loop
match_loop-nothing zero a b qty f some_qty n = absurd (omega arith)
match_loop-nothing (suc fuel) a b qty f some_qty (inl e) =
    rw (==-ne qty 0 (λ z. omega (arith, z, some_qty)), e) refl
match_loop-nothing (suc fuel) a b qty f some_qty (inr (l, o, best, first, far)) =
    rw (==-ne qty 0 (λ z. omega (arith, z, some_qty)), best, first, far) refl

pub check_for_match-nothing :
    (a : Aggressor) (b : MeOrderBook) (qty : ℕ)
    → (is_buy a.side || is_sell a.side) ≡ true
    → 1 ≤ qty
    → NothingReached b a
    → check_for_match a qty b ≡ ok (qty, b)
unfolding check_for_match
check_for_match-nothing a b qty sided some_qty n =
    rw sided (match_loop-nothing (b.order_pool.size + 1) (cut a) b qty (omega arith) some_qty n)

-- An order can rest at a price without a level, which has the place `i` in the table; `ls` are the levels
-- of its side.
pub record CanRest (b : MeOrderBook) (a : Aggressor) (i : ℕ) (ls : List ℕ) : Type 0 where
  pub filed : price_to_index a.price b ≡ ok (i, b)
  pub unknown : b.price_orders_at_price i ≡ none
  pub client : a.client_id < me_max_num_clients
  pub id : a.client_order_id < me_max_order_ids
  pub sided : (is_buy a.side || is_sell a.side) ≡ true
  pub orders_ready : IsReady b.order_pool
  pub orders_room : 2 ≤ free_count b.order_pool
  pub levels_ready : IsReady b.orders_at_price_pool
  pub levels_room : 2 ≤ free_count b.orders_at_price_pool
  pub has : HasLevels b a.side ls
  pub ranked : IsRanked a.side (level_price b) ls
  pub inside : All (λ l. l < b.orders_at_price_pool.size) ls
  pub used : All (λ l. level_free b.orders_at_price_pool l ≡ false) ls
  pub other_prices : All (λ l. a.price ≢ level_price b l) ls

-- The order rests alone in the level `l`, which has its place among the levels of the side.
pub record IsRested (b b' : MeOrderBook) (a : Aggressor) (leaves i : ℕ) (ls : List ℕ) : Type 0 where
  pub o : ℕ
  pub l : ℕ
  pub order : order_info b'.order_pool o ≡ resting_order a leaves 1
  pub has : HasLevels b' a.side (placed (λ m. comes_after a.side a.price (level_price b m)) l ls)
  pub ranked :
      IsRanked a.side
        (level_price b')
        (placed (λ m. comes_after a.side a.price (level_price b m)) l ls)
  pub price : level_price b' l ≡ a.price
  pub orders : HasOrders b' l (o ∷ [])
  pub table : b'.price_orders_at_price ≡ update b.price_orders_at_price i (some l)
  pub entry : b'.cid_oid_to_order a.client_id a.client_order_id ≡ some o
  pub sent : b'.sent ≡ b.sent ++ to_market (add_update a leaves 1) ∷ []

get_next_priority-first :
    (b : MeOrderBook) (price : ℤ) (i : ℕ)
    → price_to_index price b ≡ ok (i, b)
    → b.price_orders_at_price i ≡ none
    → get_next_priority price b ≡ ok (1, b)
unfolding get_next_priority get_orders_at_price
get_next_priority-first b price i e n = rw (e, n) refl

allocate_order-eq :
    (b : MeOrderBook) (m : MeOrder) (o : ℕ) (q : Orders)
    → allocate b.order_pool m ≡ ok (o, q)
    → allocate_order m b ≡ ok (o, record b { order_pool = q })
unfolding allocate_order
allocate_order-eq b m o q e = rw (e, allocate_order) refl

module _ (b : MeOrderBook) (a : Aggressor) (leaves i : ℕ) (ls : List ℕ) (c : CanRest b a i ls) where
  abbrev o : ℕ
  o = b.order_pool.next_free_index

  abbrev m : MeOrder
  m = resting_order a leaves 1

  module _ (q : Orders) (made : Allocated b.order_pool q m) where
    abbrev b₁ : MeOrderBook
    b₁ = record b { order_pool = q }

    is_m : order_at b₁ o ≡ m
    is_m =
        ap (λ s. (s o).object) made.blocks ∙ ap (λ s. s.object) (update_self b.order_pool.store o _)

    can_open : CanOpen b₁ o i ls
    can_open = record {
      filed =
          subst (λ x. price_to_index x.price b₁ ≡ ok (i, b₁)) (sym is_m)
            (price_to_index-rebest b a.price i b₁ c.filed refl);
      unknown = c.unknown;
      ids = subst IsFiled (sym is_m) (record { client = c.client; id = c.id });
      sided = subst (λ x. (is_buy x.side || is_sell x.side) ≡ true) (sym is_m) c.sided;
      ready = c.levels_ready;
      room = c.levels_room;
      has =
          subst (λ x. HasLevels b₁ x.side ls) (sym is_m)
            (record { first = c.has.first; ring = c.has.ring });
      ranked = subst (λ x. IsRanked x.side (level_price b₁) ls) (sym is_m) c.ranked;
      inside = c.inside;
      used = c.used;
      other_prices =
          subst (λ x. All (λ l. x.price ≢ level_price b₁ l) ls) (sym is_m) c.other_prices;
    }

  pub rest_order-IsRested :
      (b' : MeOrderBook) × (rest_order a leaves b ≡ ok (tt, b')) × IsRested b b' a leaves i ls
  unfolding rest_order
  rest_order-IsRested =
      let (q, e, made) = allocate-Allocated b.order_pool m c.orders_ready c.orders_room in
      let (b₂, runs, r) = add_order-IsOpened (b₁ q made) o i ls (can_open q made) in
      let l = b.orders_at_price_pool.next_free_index in
      let place =
        λ (x : MeOrder). placed (λ k. comes_after x.side x.price (level_price b k)) l ls in
      let levels : HasLevels b₂ a.side (place m) =
        subst (λ x. HasLevels b₂ x.side (place x)) (is_m q made) r.has in
      (
        record b₂ { sent = b₂.sent ++ to_market (add_update a leaves 1) ∷ [] },
        rw
            (
              get_next_priority-first b a.price i c.filed c.unknown,
              allocate_order-eq b m o q e,
              runs,
            )
            refl,
        record {
          o = o;
          l = l;
          order =
              ap (λ f. f o) r.info
              ∙ ap {A = MeOrder} {B = MeOrder}
                  (λ x. record x { prev_order = none; next_order = none }) (is_m q made);
          has = record { first = levels.first; ring = levels.ring };
          ranked = subst (λ x. IsRanked x.side (level_price b₂) (place x)) (is_m q made) r.ranked;
          price = r.price ∙ ap MeOrder.price (is_m q made);
          orders = record { first = r.orders.first; queue = r.orders.queue };
          table = r.table;
          entry =
              subst
                (λ x.
                  b₂.cid_oid_to_order (MeOrder.client_id x) (MeOrder.client_order_id x) ≡ some o)
                (is_m q made) r.entry;
          sent = ap (λ s. s ++ to_market (add_update a leaves 1) ∷ []) r.sent;
        },
      )
