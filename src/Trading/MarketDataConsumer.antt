-- ===== src/Trading/MarketDataConsumer.antt =====
-- trading/market_data/market_data_consumer.h and market_data_consumer.cpp: market updates in order,
-- and recovery from a gap by a snapshot. The sockets are not modelled: a callback is given the
-- complete messages of its buffer and whether they are the snapshot socket's.
pub mod Recovery
pub mod Delivery
mod Tests
use nano_trade.Base.{
  ℕ, suc, ◌+◌, Bool, true, false, not, ◌&&◌, ◌||◌, ◌==◌, ltb, if◌then◌else◌, Option, none, some,
  List, [], ◌∷◌, ◌++◌,
}
use nano_trade.Common.Types.{to_u64}
use nano_trade.Common.LfQueue.{LfQueue, push, pushes}
use nano_trade.Exchange.Messages.{MarketUpdateType, MeMarketUpdate, MdpMarketUpdate}

-- A `std::map` from sequence numbers, as the list of its entries in ascending order.
abbrev pub QueuedMarketUpdates : Type 0
QueuedMarketUpdates = List (ℕ × MeMarketUpdate)

pub record MarketDataConsumer : Type 0 where
  pub next_exp_inc_seq_num : ℕ
  pub incoming_md_updates : LfQueue MeMarketUpdate
  pub in_recovery : Bool
  pub snapshot_queued_msgs : QueuedMarketUpdates
  pub incremental_queued_msgs : QueuedMarketUpdates

unfoldable pub init : LfQueue MeMarketUpdate → MarketDataConsumer
init market_updates = record {
  next_exp_inc_seq_num = 1;
  incoming_md_updates = market_updates;
  in_recovery = false;
  snapshot_queued_msgs = [];
  incremental_queued_msgs = [];
}

-- `queue.find(k) != queue.end()`
unfoldable pub contains : ℕ → QueuedMarketUpdates → Bool
contains k [] = false
contains k ((j, _) ∷ q) = (j == k) || contains k q

-- `queue[k] = u`
unfoldable pub assign : ℕ → MeMarketUpdate → QueuedMarketUpdates → QueuedMarketUpdates
assign k u [] = (k, u) ∷ []
assign k u ((j, v) ∷ q) =
    let rest = assign k u q in
    if ltb k j then (k, u) ∷ (j, v) ∷ q else if k == j then (k, u) ∷ q else (j, v) ∷ rest

abbrev pub is_start : MeMarketUpdate → Bool
is_start u = elim u.type [ MarketUpdateType.snapshot_start ↦ true | _ ↦ false ]

abbrev pub is_end : MeMarketUpdate → Bool
is_end u = elim u.type [ MarketUpdateType.snapshot_end ↦ true | _ ↦ false ]

-- `final_events.push_back`, for all but the two marks of a snapshot.
abbrev pub keep_event : MeMarketUpdate → List MeMarketUpdate → List MeMarketUpdate
keep_event u us = if not (is_start u) && not (is_end u) then u ∷ us else us

abbrev pub keep_event? :
    MeMarketUpdate → Option (List MeMarketUpdate) → Option (List MeMarketUpdate)
keep_event? u none = none
keep_event? u (some us) = some (keep_event u us)

-- The loop over the snapshot messages: its events, or `none` for a gap.
unfoldable pub snapshot_events : ℕ → QueuedMarketUpdates → Option (List MeMarketUpdate)
snapshot_events next_snapshot_seq [] = some []
snapshot_events next_snapshot_seq ((k, u) ∷ q) =
    let rest = snapshot_events (suc next_snapshot_seq) q in
    if not (k == next_snapshot_seq) then none else keep_event? u rest

-- The loop over the incremental messages: the next number expected, and the events or `none` for a
-- gap.
unfoldable pub incremental_events : ℕ → QueuedMarketUpdates → ℕ × Option (List MeMarketUpdate)
incremental_events next [] = (next, some [])
incremental_events next ((k, u) ∷ q) =
    let skipped = incremental_events next q in
    let (after, rest) = incremental_events (to_u64 (next + 1)) q in
    if ltb k next
    then skipped
    else if not (k == next)
    then (next, none)
    else (after, keep_event? u rest)

-- `rbegin()->second`
abbrev pub last_update : MeMarketUpdate → QueuedMarketUpdates → MeMarketUpdate
last_update u [] = u
last_update u ((_, v) ∷ q) = last_update v q

abbrev pub clear_snapshot : MarketDataConsumer → MarketDataConsumer
clear_snapshot c = record c { snapshot_queued_msgs = [] }

-- The end of `checkSnapshotSync`, with the events of both streams.
unfoldable pub publish_events :
    MarketDataConsumer → List MeMarketUpdate → ℕ × Option (List MeMarketUpdate) → MarketDataConsumer
publish_events c events (next, none) = record c {
  next_exp_inc_seq_num = next;
  snapshot_queued_msgs = [];
}
publish_events c events (next, some more) = record {
  next_exp_inc_seq_num = next;
  incoming_md_updates = pushes c.incoming_md_updates (events ++ more);
  in_recovery = false;
  snapshot_queued_msgs = [];
  incremental_queued_msgs = [];
}

unfoldable pub sync_snapshot :
    MarketDataConsumer
    → (first last : MeMarketUpdate) → Option (List MeMarketUpdate)
    → MarketDataConsumer
unfolding incremental_events publish_events
sync_snapshot c first last none = clear_snapshot c
sync_snapshot c first last (some events) =
    if not (is_end last)
    then c
    else publish_events c events
        (incremental_events (to_u64 (last.order_id + 1)) c.incremental_queued_msgs)

unfoldable pub check_snapshot_sync : MarketDataConsumer → MarketDataConsumer
unfolding sync_snapshot snapshot_events
check_snapshot_sync c = elim c.snapshot_queued_msgs [
  | [] ↦ c
  | (k, first) ∷ q ↦
      if not (is_start first)
      then clear_snapshot c
      else sync_snapshot c first (last_update first q) (snapshot_events 0 ((k, first) ∷ q))
]

-- Where the messages of a stream wait before `checkSnapshotSync` looks at them.
unfoldable pub store_message : MarketDataConsumer → Bool → MdpMarketUpdate → MarketDataConsumer
unfolding assign contains
store_message c is_snapshot request =
    let k = request.seq_num in
    let u = request.me_market_update in
    if is_snapshot
    then record c {
      snapshot_queued_msgs =
          assign k u (if contains k c.snapshot_queued_msgs then [] else c.snapshot_queued_msgs);
    }
    else record c { incremental_queued_msgs = assign k u c.incremental_queued_msgs }

unfoldable pub queue_message : MarketDataConsumer → Bool → MdpMarketUpdate → MarketDataConsumer
unfolding check_snapshot_sync store_message
queue_message c is_snapshot request = check_snapshot_sync (store_message c is_snapshot request)

unfoldable pub start_snapshot_sync : MarketDataConsumer → MarketDataConsumer
start_snapshot_sync c = record c { snapshot_queued_msgs = []; incremental_queued_msgs = [] }

-- The body of the loop of `recvCallback`.
unfoldable pub receive : Bool → MarketDataConsumer → MdpMarketUpdate → MarketDataConsumer
unfolding queue_message start_snapshot_sync
receive is_snapshot c request =
    if c.in_recovery
    then queue_message c is_snapshot request
    else if not (request.seq_num == c.next_exp_inc_seq_num)
    then queue_message (start_snapshot_sync (record c { in_recovery = true })) is_snapshot request
    else if is_snapshot
    then c
    else record c {
      next_exp_inc_seq_num = to_u64 (c.next_exp_inc_seq_num + 1);
      incoming_md_updates = push c.incoming_md_updates request.me_market_update;
    }

unfoldable pub receive_all : Bool → MarketDataConsumer → List MdpMarketUpdate → MarketDataConsumer
unfolding receive
receive_all is_snapshot c [] = c
receive_all is_snapshot c (r ∷ rs) = receive_all is_snapshot (receive is_snapshot c r) rs

-- Snapshot messages are discarded while there is no gap to recover from.
unfoldable pub recv_callback : Bool → MarketDataConsumer → List MdpMarketUpdate → MarketDataConsumer
unfolding receive_all
recv_callback is_snapshot c requests =
    if is_snapshot && not c.in_recovery then c else receive_all is_snapshot c requests

-- The body of the loop of `run` in replay mode. The wait for room in the queue of the trade engine is
-- another thread's work and is not modelled.
unfoldable pub replay : MarketDataConsumer → MdpMarketUpdate → MarketDataConsumer
replay c request =
    let next =
      if c.in_recovery || not (request.seq_num == c.next_exp_inc_seq_num)
      then to_u64 (request.seq_num + 1)
      else to_u64 (c.next_exp_inc_seq_num + 1) in
    record c {
      in_recovery = false;
      next_exp_inc_seq_num = next;
      incoming_md_updates = push c.incoming_md_updates request.me_market_update;
    }

unfoldable pub replay_all : MarketDataConsumer → List MdpMarketUpdate → MarketDataConsumer
unfolding replay
replay_all c [] = c
replay_all c (r ∷ rs) = replay_all (replay c r) rs
