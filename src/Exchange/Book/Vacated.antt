-- ===== src/Exchange/Book/Vacated.antt =====
-- `removeOrdersAtPrice` of `MEOrderBook` (exchange/matcher/me_order_book.h) as a whole, by what it
-- leaves in the pool.
use nano_trade.Base.{
  ℕ, ◌<◌, ◌≡◌, refl, sym, ◌∙◌, ap, true, false, if◌then◌else◌, same_ptr, update, Option, some, none,
  List, [], ◌∷◌, subst, subst₂,
}
use nano_trade.Base.Int.{ℤ}
use nano_trade.Base.Outcome.{ok}
use nano_trade.Base.Lists.{last}
use nano_trade.Base.Ring.{Ring}
use nano_trade.Base.Linked.{InRing, unlinked-InRing}
use nano_trade.Common.Types.{Side}
use nano_trade.Common.MemPool.Full.{Released, deallocate-Released}
use nano_trade.Exchange.Book.{MeOrderBook, Levels, best_by_price}
use nano_trade.Exchange.Book.Links.{
  level_info, level_free, level_info-put_next, level_info-put_prev,
}
use nano_trade.Exchange.Book.Levels.{
  price_to_index, get_orders_at_price, unlink_level, remove_orders_at_price,
}
use nano_trade.Exchange.Book.LevelRing.{me_levels}
use nano_trade.Exchange.Book.Ladder.{set_orders_at_price-eq}
use nano_trade.Exchange.Book.Vacating.{
  rebest, best-rebest, cleared, cleared-free, cleared-size, unlink_level-alone, unlink_level-shared,
  price_to_index-rebest, bridged, bridged-info, bridged-free, bridged-size, free_level-eq,
  freed-next, freed-prev, freed-info, freed-free,
}

-- No level has changed but in its links, the block of `l` alone has become free, and the price has no
-- level. Beside the levels nothing has changed.
pub record IsVacated (b b' : MeOrderBook) (l i : ℕ) : Type 0 where
  pub info : level_info b'.orders_at_price_pool ≡ level_info b.orders_at_price_pool
  pub free : level_free b'.orders_at_price_pool ≡ update (level_free b.orders_at_price_pool) l true
  pub table : b'.price_orders_at_price ≡ update b.price_orders_at_price i none
  pub others :
      record b' {
        orders_at_price_pool = b.orders_at_price_pool;
        bids_by_price = b.bids_by_price;
        asks_by_price = b.asks_by_price;
        price_orders_at_price = b.price_orders_at_price;
      }
      ≡ b

freed-InRing :
    (p q : Levels) (l y : ℕ) (zs : List ℕ)
    → Released p l q
    → InRing me_levels p y zs
    → InRing me_levels q y zs
freed-InRing p q l y zs rel =
    subst₂ (λ f g. Ring f g y zs) (sym (freed-next p q l rel)) (sym (freed-prev p q l rel))

module _ (b : MeOrderBook) (side : Side) (price : ℤ) (l i : ℕ)
    (filed : price_to_index price b ≡ ok (i, b)) (known : b.price_orders_at_price i ≡ some l)
    (inside : l < b.orders_at_price_pool.size)
    (used : level_free b.orders_at_price_pool l ≡ false) where
  -- What is left when `unlink_level` has made `p` of the pool, and then the block is given back.
  vacated :
      (p : Levels) (v : Option ℕ)
      → unlink_level side l b ≡ ok (tt, rebest (record b { orders_at_price_pool = p }) side v)
      → level_info p ≡ level_info b.orders_at_price_pool
      → level_free p ≡ level_free b.orders_at_price_pool
      → p.size ≡ b.orders_at_price_pool.size
      → (b' : MeOrderBook) × (remove_orders_at_price side price b ≡ ok (tt, b'))
        × (best_by_price b' side ≡ v)
        × Released (cleared p l) l b'.orders_at_price_pool
        × IsVacated b b' l i
  unfolding remove_orders_at_price get_orders_at_price
  vacated p v e info free size =
      let u = cleared p l in
      let (q, d, rel) =
        deallocate-Released u l (subst (λ k. l < k) (sym (cleared-size p l ∙ size)) inside)
          (ap (λ g. g l) (cleared-free p l ∙ free) ∙ used) in
      let s = record (rebest b side v) { orders_at_price_pool = u } in
      let t = record s { price_orders_at_price = update b.price_orders_at_price i none } in
      (
        record t { orders_at_price_pool = q },
        rw
            (
              filed,
              known,
              e,
              set_orders_at_price-eq s price i none (price_to_index-rebest b price i s filed refl),
              free_level-eq t l q d,
            )
            refl,
        best-rebest b side v,
        rel,
        record {
          info =
              freed-info u q l rel
              ∙ level_info-put_prev _ l none
              ∙ level_info-put_next p l none
              ∙ info;
          free = freed-free u q l rel ∙ ap (λ f. update f l true) (cleared-free p l ∙ free);
          table = refl;
          others = refl;
        },
      )

  pub removed_alone :
      InRing me_levels b.orders_at_price_pool l []
      → (b' : MeOrderBook) × (remove_orders_at_price side price b ≡ ok (tt, b'))
        × (best_by_price b' side ≡ none)
        × IsVacated b b' l i
  removed_alone r =
      let (b', runs, first, _, gone) =
        vacated b.orders_at_price_pool none (unlink_level-alone b side l r) refl refl refl in
      (b', runs, first, gone)

  pub removed_shared :
      (y : ℕ) (zs : List ℕ)
      → InRing me_levels b.orders_at_price_pool l (y ∷ zs)
      → (b' : MeOrderBook) × (remove_orders_at_price side price b ≡ ok (tt, b'))
        × (best_by_price b' side
            ≡ (if same_ptr (some l) (best_by_price b side) then some y else best_by_price b side))
        × InRing me_levels b'.orders_at_price_pool y zs
        × IsVacated b b' l i
  removed_shared y zs r =
      let p = bridged b.orders_at_price_pool (last y zs) y in
      let (b', runs, first, rel, gone) =
        vacated p _ (unlink_level-shared b side l y zs r)
          (bridged-info b.orders_at_price_pool (last y zs) y)
          (bridged-free b.orders_at_price_pool (last y zs) y)
          (bridged-size b.orders_at_price_pool (last y zs) y) in
      (
        b',
        runs,
        first,
        freed-InRing (cleared p l) b'.orders_at_price_pool l y zs rel
            (unlinked-InRing me_levels b.orders_at_price_pool l y zs r),
        gone,
      )
