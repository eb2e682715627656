-- ===== src/Exchange/Snapshot.antt =====
-- exchange/market_data/snapshot_synthesizer.h, snapshot_synthesizer.cpp and
-- market_data_publisher.cpp: the incremental stream, and the copy of the books from which snapshots
-- are published. What is sent on a multicast socket is a list of messages.
pub mod Cycle
mod Tests
use nano_trade.Base.{
  ℕ, zero, suc, ◌+◌, Bool, true, false, not, ◌==◌, ltb, if◌then◌else◌, update, Option, none, some,
  List, [], ◌∷◌, ◌++◌,
}
use nano_trade.Base.Outcome.{Outcome, ok, fault, fatal, out_of_range, and_then}
use nano_trade.Common.Types.{
  Side, me_max_tickers, me_max_order_ids, to_u64, ticker_id_invalid, order_id_invalid,
  price_invalid, qty_invalid, priority_invalid, side_to_value,
}
use nano_trade.Base.Int.{eqb_ℤ}
use nano_trade.Common.MemPool.{MemPool, allocate, deallocate}
use nano_trade.Common.MemPool
use nano_trade.Common.LfQueue.{LfQueue, push}
use nano_trade.Exchange.Messages.{MarketUpdateType, MeMarketUpdate, MdpMarketUpdate}

pub record MarketDataPublisher : Type 0 where
  pub next_inc_seq_num : ℕ
  pub snapshot_md_updates : LfQueue MdpMarketUpdate

-- The loop of `MarketDataPublisher::run` over the updates in its queue: what is sent on the
-- incremental stream, where each update is also forwarded to the synthesizer.
unfoldable pub publish_updates :
    MarketDataPublisher → List MeMarketUpdate → List MdpMarketUpdate × MarketDataPublisher
publish_updates p [] = ([], p)
publish_updates p (u ∷ us) =
    let m : MdpMarketUpdate = record { seq_num = p.next_inc_seq_num; me_market_update = u } in
    let (ms, q) =
      publish_updates
        (record {
          next_inc_seq_num = to_u64 (p.next_inc_seq_num + 1);
          snapshot_md_updates = push p.snapshot_md_updates m;
        })
        us in
    (m ∷ ms, q)

pub record SnapshotSynthesizer : Type 0 where
  pub ticker_orders : ℕ → ℕ → Option ℕ
  pub last_inc_seq_num : ℕ
  pub order_pool : MemPool MeMarketUpdate

-- `MEMarketUpdate()` with a type.
abbrev pub blank : MarketUpdateType → MeMarketUpdate
blank type = record {
  type = type;
  order_id = order_id_invalid;
  ticker_id = ticker_id_invalid;
  side = Side.invalid;
  price = price_invalid;
  qty = qty_invalid;
  priority = priority_invalid;
}

unfoldable pub init : SnapshotSynthesizer
init = record {
  ticker_orders = λ _ _. none;
  last_inc_seq_num = 0;
  order_pool = MemPool.init (blank MarketUpdateType.invalid) me_max_order_ids;
}

abbrev pub set_order : SnapshotSynthesizer → MeMarketUpdate → Option ℕ → SnapshotSynthesizer
set_order s u o = record s {
  ticker_orders =
      update s.ticker_orders u.ticker_id (update (s.ticker_orders u.ticker_id) u.order_id o);
}

-- The two assertions that an update is about the order found.
abbrev pub is_same_order : MeMarketUpdate → MeMarketUpdate → Bool
is_same_order order u =
    if order.order_id == u.order_id
    then eqb_ℤ (side_to_value order.side) (side_to_value u.side)
    else false

unfoldable pub add_order :
    SnapshotSynthesizer → MeMarketUpdate → Option ℕ → Outcome SnapshotSynthesizer
add_order s u (some _) = fault fatal
add_order s u none =
    and_then (allocate s.order_pool u)
      λ (i, p). ok (set_order (record s { order_pool = p }) u (some i))

abbrev pub write_order : SnapshotSynthesizer → ℕ → MeMarketUpdate → SnapshotSynthesizer
write_order s i v = record s {
  order_pool = record s.order_pool {
    store =
        update s.order_pool.store i
          (record { object = v; is_free = (s.order_pool.store i).is_free });
  };
}

unfoldable pub modify_order :
    SnapshotSynthesizer → MeMarketUpdate → Option ℕ → Outcome SnapshotSynthesizer
modify_order s u none = fault fatal
modify_order s u (some i) =
    let order = (s.order_pool.store i).object in
    if is_same_order order u
    then ok (write_order s i (record order { qty = u.qty; price = u.price }))
    else fault fatal

unfoldable pub cancel_order :
    SnapshotSynthesizer → MeMarketUpdate → Option ℕ → Outcome SnapshotSynthesizer
cancel_order s u none = fault fatal
cancel_order s u (some i) =
    if is_same_order (s.order_pool.store i).object u
    then and_then (deallocate s.order_pool i)
        (λ p. ok (set_order (record s { order_pool = p }) u none))
    else fault fatal

-- The order that an update is about; `at` is checked for both numbers.
unfoldable pub find_order : SnapshotSynthesizer → MeMarketUpdate → Outcome (Option ℕ)
find_order s u =
    if ltb u.order_id me_max_order_ids
    then ok (s.ticker_orders u.ticker_id u.order_id)
    else fault out_of_range

unfoldable pub update_orders : SnapshotSynthesizer → MeMarketUpdate → Outcome SnapshotSynthesizer
unfolding add_order modify_order cancel_order find_order
update_orders s u = elim u.type [
  | MarketUpdateType.add ↦ and_then (find_order s u) (add_order s u)
  | MarketUpdateType.modify ↦ and_then (find_order s u) (modify_order s u)
  | MarketUpdateType.cancel ↦ and_then (find_order s u) (cancel_order s u)
  | _ ↦ ok s
]

unfoldable pub add_to_snapshot : SnapshotSynthesizer → MdpMarketUpdate → Outcome SnapshotSynthesizer
unfolding update_orders
add_to_snapshot s m =
    if not (ltb m.me_market_update.ticker_id me_max_tickers)
    then fault out_of_range
    else and_then (update_orders s m.me_market_update) λ t.
      if m.seq_num == to_u64 (t.last_inc_seq_num + 1)
      then ok (record t { last_inc_seq_num = m.seq_num })
      else fault fatal

-- The loop over the orders of an instrument, `count` of them from `i` on; `size` is `snapshot_size`.
unfoldable pub publish_orders :
    (ℕ → Option ℕ) → MemPool MeMarketUpdate → (i count size : ℕ) → List MdpMarketUpdate × ℕ
publish_orders orders p i zero size = ([], size)
publish_orders orders p i (suc count) size = elim (orders i) [
  | none ↦ publish_orders orders p (suc i) count size
  | some o ↦
      let (ms, n) = publish_orders orders p (suc i) count (size + 1) in
      (record { seq_num = size; me_market_update = (p.store o).object } ∷ ms, n)
]

abbrev pub clear_update : ℕ → MeMarketUpdate
clear_update ticker_id = record (blank MarketUpdateType.clear) { ticker_id = ticker_id }

-- The loop over the instruments, each with room for `orders` orders.
unfoldable pub publish_tickers :
    SnapshotSynthesizer → (orders ticker_id count size : ℕ) → List MdpMarketUpdate × ℕ
publish_tickers s orders ticker_id zero size = ([], size)
publish_tickers s orders ticker_id (suc count) size =
    let (ms, n) = publish_orders (s.ticker_orders ticker_id) s.order_pool 0 orders (size + 1) in
    let (ns, l) = publish_tickers s orders (suc ticker_id) count n in
    (record { seq_num = size; me_market_update = clear_update ticker_id } ∷ ms ++ ns, l)

abbrev pub mark : MarketUpdateType → ℕ → MeMarketUpdate
mark type order_id = record (blank type) { order_id = order_id }

-- `tickers` and `orders` are the sizes of the two arrays, ME_MAX_TICKERS and ME_MAX_ORDER_IDS.
unfoldable pub publish_snapshot : (tickers orders : ℕ) → SnapshotSynthesizer → List MdpMarketUpdate
publish_snapshot tickers orders s =
    let (ms, n) = publish_tickers s orders 0 tickers 1 in
    record {
      seq_num = 0;
      me_market_update = mark MarketUpdateType.snapshot_start s.last_inc_seq_num;
    }
      ∷ ms
    ++ record {
      seq_num = n;
      me_market_update = mark MarketUpdateType.snapshot_end s.last_inc_seq_num;
    }
      ∷ []
