-- ===== src/Exchange/Book/Lone.antt =====
-- `removeOrder` of `MEOrderBook` (exchange/matcher/me_order_book.h) on an order that is alone in its
-- price level: the level goes too.
use nano_trade.Base.{
  ℕ, ◌<◌, ◌≡◌, refl, sym, ◌∙◌, ap, arith, true, false, ==-self, update, some, none, List, [], ◌∷◌,
  ◌++◌, subst,
}
use nano_trade.Base.Outcome.{ok}
use nano_trade.Common.MemPool.{MemPool}
use nano_trade.Common.MemPool.Full.{deallocate-Released}
use nano_trade.Exchange.Book.{MeOrderBook, order_at}
use nano_trade.Exchange.Book.Links.{order_info, order_free, level_free}
use nano_trade.Exchange.Book.Levels.{price_to_index, get_orders_at_price}
use nano_trade.Exchange.Book.Orders.{remove_order}
use nano_trade.Exchange.Book.Ladder.{HasLevels, IsRanked, level_price}
use nano_trade.Exchange.Book.Queues.{HasOrders, IsFiled, filed, set_client_order-eq}
use nano_trade.Exchange.Book.Removal.{freed-info, freed-free, free_order-eq}
use nano_trade.Exchange.Book.Leveling.{remove_orders_at_price-Remains}

-- What `remove_order` leaves when the order `o` goes with its level: the levels `ls` of its side, the
-- block of `o` free, no order changed but that, and the client's entry cleared.
pub record IsCleared (b b' : MeOrderBook) (o l i : ℕ) (ls : List ℕ) : Type 0 where
  pub has : HasLevels b' (order_at b o).side ls
  pub ranked : IsRanked (order_at b o).side (level_price b') ls
  pub level_freed :
      level_free b'.orders_at_price_pool ≡ update (level_free b.orders_at_price_pool) l true
  pub table : b'.price_orders_at_price ≡ update b.price_orders_at_price i none
  pub info : order_info b'.order_pool ≡ order_info b.order_pool
  pub order_freed : order_free b'.order_pool ≡ update (order_free b.order_pool) o true
  pub forgotten : b'.cid_oid_to_order (order_at b o).client_id (order_at b o).client_order_id ≡ none
  pub sent : b'.sent ≡ b.sent

-- An order that is alone in the level `l` of its price, with the levels of its side before and after
-- that one.
pub record IsAlone (b : MeOrderBook) (o l i : ℕ) (xs ys : List ℕ) : Type 0 where
  pub index : price_to_index (order_at b o).price b ≡ ok (i, b)
  pub known : b.price_orders_at_price i ≡ some l
  pub orders : HasOrders b l (o ∷ [])
  pub ids : IsFiled (order_at b o)
  pub inside : o < b.order_pool.size
  pub used : order_free b.order_pool o ≡ false
  pub level_inside : l < b.orders_at_price_pool.size
  pub level_used : level_free b.orders_at_price_pool l ≡ false
  pub has : HasLevels b (order_at b o).side (xs ++ l ∷ ys)
  pub ranked : IsRanked (order_at b o).side (level_price b) (xs ++ l ∷ ys)

-- Without an order that is alone in its level, the other levels are the ring of its side.
pub remove_order-IsCleared :
    (b : MeOrderBook) (o l i : ℕ) (xs ys : List ℕ)
    → IsAlone b o l i xs ys
    → (b' : MeOrderBook) × (remove_order o b ≡ ok (tt, b')) × IsCleared b b' o l i (xs ++ ys)
unfolding remove_order get_orders_at_price
remove_order-IsCleared b o l i xs ys a =
    let (b₁, runs, left) =
      remove_orders_at_price-Remains b (order_at b o).side (order_at b o).price l i a.index a.known
        a.level_inside a.level_used xs ys a.has a.ranked in
    let same : b₁.order_pool ≡ b.order_pool = ap MeOrderBook.order_pool left.vacated.others in
    let (q, d, rel) =
      deallocate-Released b₁.order_pool o (subst (λ p. o < MemPool.size p) (sym same) a.inside)
        (ap (λ p. order_free p o) same ∙ a.used) in
    let b₂ = filed b₁ (order_at b o) none in
    (
      record b₂ { order_pool = q },
      rw
          (
            a.index,
            a.known,
            a.orders.queue.links.1,
            ==-self,
            runs,
            set_client_order-eq b₁ (order_at b o) none a.ids,
            free_order-eq b₂ o q d,
          )
          refl,
      record {
        has = record { first = left.has.first; ring = left.has.ring };
        ranked = left.ranked;
        level_freed = left.vacated.free;
        table = left.vacated.table;
        info = freed-info b₁.order_pool q o rel ∙ ap order_info same;
        order_freed =
            freed-free b₁.order_pool q o rel ∙ ap (λ p. update (order_free p) o true) same;
        forgotten = ground arith;
        sent = ap MeOrderBook.sent left.vacated.others;
      },
    )
