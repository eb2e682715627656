-- ===== src/Exchange/Snapshot/Cycle.antt =====
-- A published snapshot, and what it does for a consumer.
use nano_trade.Base.{
  ℕ, zero, suc, ◌+◌, ◌^◌, ◌<◌, ◌≡◌, refl, ◌∙◌, ap, arith, true, Option, none, some, List, [], ◌∷◌,
  ◌++◌, Option-cases, ◌⊎◌, inl, inr,
}
use nano_trade.Base.Lists.{length, length-append, All, All-append}
use nano_trade.Common.MemPool.{MemPool}
use nano_trade.Exchange.Messages.{MarketUpdateType, MeMarketUpdate, MdpMarketUpdate}
use nano_trade.Exchange.Snapshot.{
  SnapshotSynthesizer, publish_orders, publish_tickers, publish_snapshot, clear_update, mark,
}
use nano_trade.Trading.MarketDataConsumer.{MarketDataConsumer, QueuedMarketUpdates, recv_callback}
use nano_trade.Trading.MarketDataConsumer.Delivery.{numbered}
use nano_trade.Trading.MarketDataConsumer.Recovery.{
  entries, IsEvent, recovered, recv_callback-recovers,
}

-- The orders of an instrument in the order of their numbers.
abbrev pub row : (ℕ → Option ℕ) → MemPool MeMarketUpdate → (i count : ℕ) → List MeMarketUpdate
row orders p i zero = []
row orders p i (suc count) = elim (orders i) [
  | none ↦ row orders p (suc i) count
  | some o ↦ (p.store o).object ∷ row orders p (suc i) count
]

-- For each instrument a CLEAR and its orders.
abbrev pub books : SnapshotSynthesizer → (orders ticker_id count : ℕ) → List MeMarketUpdate
books s orders t zero = []
books s orders t (suc count) =
    clear_update t ∷ row (s.ticker_orders t) s.order_pool 0 orders ++ books s orders (suc t) count

-- The sequence numbers of two equal counts.
renumbered : (j k : ℕ) (us : List MeMarketUpdate) → j ≡ k → numbered j us ≡ numbered k us
renumbered j k us e = ap (λ n. numbered n us) e

numbered-append :
    (k : ℕ) (us vs : List MeMarketUpdate)
    → numbered k (us ++ vs) ≡ numbered k us ++ numbered (k + length us) vs
numbered-append k [] vs = renumbered k (k + 0) vs (omega arith)
numbered-append k (u ∷ us) vs =
    rw
      (
        numbered-append (suc k) us vs,
        renumbered (suc k + length us) (k + suc (length us)) vs (omega arith),
      )
      refl

row-none :
    (orders : ℕ → Option ℕ) (p : MemPool MeMarketUpdate) (i count : ℕ)
    → orders i ≡ none
    → row orders p i (suc count) ≡ row orders p (suc i) count
row-none orders p i count e = rw (e, row) refl

row-some :
    (orders : ℕ → Option ℕ) (p : MemPool MeMarketUpdate) (i count o : ℕ)
    → orders i ≡ some o
    → row orders p i (suc count) ≡ (p.store o).object ∷ row orders p (suc i) count
row-some orders p i count o e = rw (e, row) refl

publish_orders-numbered :
    (orders : ℕ → Option ℕ) (p : MemPool MeMarketUpdate) (i count size : ℕ)
    → publish_orders orders p i count size
      ≡ (numbered size (row orders p i count), size + length (row orders p i count))
unfolding publish_orders
publish_orders-numbered orders p i zero size = ap (λ n. ([], n)) (omega arith)
publish_orders-numbered orders p i (suc count) size =
    from (Option-cases (orders i)) (publish_orders-numbered orders p (suc i) count)
  where
    from :
        (orders i ≡ none) ⊎ ((o : ℕ) × (orders i ≡ some o))
        → ((n : ℕ)
            → publish_orders orders p (suc i) count n
              ≡ (numbered n (row orders p (suc i) count), n + length (row orders p (suc i) count)))
        → publish_orders orders p i (suc count) size
          ≡ (numbered size (row orders p i (suc count)), size + length (row orders p i (suc count)))
    from (inl e) rest = rw (row-none orders p i count e) (rw (e, publish_orders) (rest size))
    from (inr (o, e)) rest = rw (row-some orders p i count o e) (
        rw
          (
            e,
            publish_orders,
            rest (size + 1),
            renumbered (size + 1) (suc size) (row orders p (suc i) count) (omega arith),
          )
          (ap
            (λ n. (
              record { seq_num = size; me_market_update = (p.store o).object }
                  ∷ numbered (suc size) (row orders p (suc i) count),
              n,
            ))
            (omega arith)))

-- Two counts of the same messages.
recounted :
    (ms : List MdpMarketUpdate) (j k : ℕ)
    → j ≡ k
    → ◌≡◌ {A = List MdpMarketUpdate × ℕ} (ms, j) (ms, k)
recounted ms j k e = ap (λ n. (ms, n)) e

publish_tickers-numbered :
    (s : SnapshotSynthesizer) (orders t count size : ℕ)
    → publish_tickers s orders t count size
      ≡ (numbered size (books s orders t count), size + length (books s orders t count))
unfolding publish_tickers
publish_tickers-numbered s orders t zero size = ap (λ n. ([], n)) (omega arith)
publish_tickers-numbered s orders t (suc count) size =
    let r = row (s.ticker_orders t) s.order_pool 0 orders in
    let bs = books s orders (suc t) count in
    rw
      (
        publish_orders-numbered (s.ticker_orders t) s.order_pool 0 orders (size + 1),
        publish_tickers-numbered s orders (suc t) count (size + 1 + length r),
        renumbered (size + 1) (suc size) r (omega arith),
        renumbered (size + 1 + length r) (suc size + length r) bs (omega arith),
        numbered-append (suc size) r bs,
      )
      (recounted
        (record { seq_num = size; me_market_update = clear_update t } ∷ numbered (suc size) r
          ++ numbered (suc size + length r) bs)
        (size + 1 + length r + length bs) (size + length (books s orders t (suc count)))
        (omega (arith, length-append r bs)))

-- A snapshot is a gapless run of numbers from 0: the start mark, for each instrument a CLEAR and its
-- orders, and the end mark; both marks carry the number of the last incremental update in it.
pub publish_snapshot-numbered :
    (tickers orders : ℕ) (s : SnapshotSynthesizer)
    → publish_snapshot tickers orders s
      ≡ numbered 0 (
          mark MarketUpdateType.snapshot_start s.last_inc_seq_num ∷ books s orders 0 tickers
          ++ mark MarketUpdateType.snapshot_end s.last_inc_seq_num ∷ [])
unfolding publish_snapshot
publish_snapshot-numbered tickers orders s =
    rw (publish_tickers-numbered s orders 0 tickers 1, numbered-append 1) refl

-- Every order that the synthesizer holds is stored as an ADD.
abbrev pub IsRecording : SnapshotSynthesizer → Type 0
IsRecording s =
    (t o i : ℕ)
    → s.ticker_orders t o ≡ some i
    → (s.order_pool.store i).object.type ≡ MarketUpdateType.add

add-IsEvent : (u : MeMarketUpdate) → u.type ≡ MarketUpdateType.add → IsEvent u
add-IsEvent u e = (rw e refl, rw e refl)

module _ (s : SnapshotSynthesizer) (r : IsRecording s) where
  row-IsEvent : (t i count : ℕ) → All IsEvent (row (s.ticker_orders t) s.order_pool i count)
  row-IsEvent t i zero = tt
  row-IsEvent t i (suc count) =
      from (Option-cases (s.ticker_orders t i)) (row-IsEvent t (suc i) count)
    where
      from :
          (s.ticker_orders t i ≡ none) ⊎ ((o : ℕ) × (s.ticker_orders t i ≡ some o))
          → All IsEvent (row (s.ticker_orders t) s.order_pool (suc i) count)
          → All IsEvent (row (s.ticker_orders t) s.order_pool i (suc count))
      from (inl e) rest = rw (row-none (s.ticker_orders t) s.order_pool i count e) rest
      from (inr (o, e)) rest =
          rw (row-some (s.ticker_orders t) s.order_pool i count o e)
            (add-IsEvent (s.order_pool.store o).object (r t i o e), rest)

  books-IsEvent : (orders t count : ℕ) → All IsEvent (books s orders t count)
  books-IsEvent orders t zero = tt
  books-IsEvent orders t (suc count) = (
    (refl, refl),
    All-append IsEvent (row (s.ticker_orders t) s.order_pool 0 orders)
        (books s orders (suc t) count) (row-IsEvent t 0 orders)
        (books-IsEvent orders (suc t) count),
  )

  -- A synthesizer that stores every order as an ADD, and a consumer in recovery that has seen no
  -- snapshot message and whose incremental messages are old ones and a gapless run, below 2 ^ 64,
  -- from the one after the last that the synthesizer has taken in: the published snapshot ends the
  -- recovery, and the trade engine gets the books of the synthesizer and then the updates of the
  -- run.
  pub publish_snapshot-recovers :
      (tickers orders : ℕ) (c : MarketDataConsumer) (old : QueuedMarketUpdates)
      (more : List MeMarketUpdate)
      → c.in_recovery ≡ true
      → c.snapshot_queued_msgs ≡ []
      → All IsEvent more
      → c.incremental_queued_msgs ≡ old ++ entries (s.last_inc_seq_num + 1) more
      → All (λ x. x.0 < s.last_inc_seq_num + 1) old
      → s.last_inc_seq_num + 1 + length more < 2 ^ 64
      → recv_callback true c (publish_snapshot tickers orders s)
        ≡ recovered c s.last_inc_seq_num (books s orders 0 tickers) more
  publish_snapshot-recovers tickers orders c old more rec empty e q o n =
      ap (recv_callback true c) (publish_snapshot-numbered tickers orders s)
      ∙ recv_callback-recovers c (mark MarketUpdateType.snapshot_start s.last_inc_seq_num)
          (books s orders 0 tickers) old more
          (mark MarketUpdateType.snapshot_end s.last_inc_seq_num) rec empty refl refl
          (books-IsEvent orders 0 tickers) e q o n
