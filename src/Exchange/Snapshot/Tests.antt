-- ===== src/Exchange/Snapshot/Tests.antt =====
-- The snapshot's theorems at a concrete book of one order.
use nano_trade.Base.{
  ℕ, ◌≡◌, refl, arith, true, false, ◌==◌, if◌then◌else◌, ◌&&◌, none, some, [], ◌∷◌, ◌++◌,
}
use nano_trade.Base.Int.{pos}
use nano_trade.Common.Types.{Side}
use nano_trade.Exchange.Messages.{MarketUpdateType, MeMarketUpdate}
use nano_trade.Exchange.Snapshot.{SnapshotSynthesizer, publish_snapshot, mark}
use nano_trade.Exchange.Snapshot.Cycle.{
  IsRecording, books, publish_snapshot-numbered, publish_snapshot-recovers,
}
use nano_trade.Trading.MarketDataConsumer.{MarketDataConsumer, recv_callback}
use nano_trade.Trading.MarketDataConsumer.Delivery.{numbered}
use nano_trade.Trading.MarketDataConsumer.Recovery.{recovered}

abbrev update : MarketUpdateType → ℕ → MeMarketUpdate
update type order_id = record {
  type = type;
  order_id = order_id;
  ticker_id = 0;
  side = Side.buy;
  price = pos 100;
  qty = 10;
  priority = 1;
}

-- Order 1 of instrument 0 rests.
abbrev synthesizer : SnapshotSynthesizer
synthesizer = record {
  ticker_orders = λ t o. if (t == 0) && (o == 1) then some 0 else none;
  last_inc_seq_num = 8;
  order_pool = record {
    store = λ _. record { object = update MarketUpdateType.add 1; is_free = false };
    size = 4;
    next_free_index = 1;
  };
}

synthesizer-IsRecording : IsRecording synthesizer
synthesizer-IsRecording t o i e = refl

-- Number 4 was lost; 6 and 9 wait.
abbrev recovering : MarketDataConsumer
recovering = record {
  next_exp_inc_seq_num = 4;
  incoming_md_updates = record {
    store = λ _. update MarketUpdateType.invalid 0;
    capacity = 16;
    next_write_index = 0;
    next_read_index = 0;
    num_elements = 0;
  };
  in_recovery = true;
  snapshot_queued_msgs = [];
  incremental_queued_msgs =
      (6, update MarketUpdateType.add 1) ∷ (9, update MarketUpdateType.add 2) ∷ [];
}

publish_snapshot-numbered_example :
    publish_snapshot 2 3 synthesizer
    ≡ numbered 0 (
        mark MarketUpdateType.snapshot_start 8 ∷ books synthesizer 3 0 2
        ++ mark MarketUpdateType.snapshot_end 8 ∷ [])
publish_snapshot-numbered_example = publish_snapshot-numbered 2 3 synthesizer

publish_snapshot-recovers_example :
    recv_callback true recovering (publish_snapshot 2 3 synthesizer)
    ≡ recovered recovering 8 (books synthesizer 3 0 2) (update MarketUpdateType.add 2 ∷ [])
publish_snapshot-recovers_example =
    publish_snapshot-recovers synthesizer synthesizer-IsRecording 2 3 recovering
      ((6, update MarketUpdateType.add 1) ∷ []) (update MarketUpdateType.add 2 ∷ []) refl refl
      ((refl, refl), tt) refl (omega arith, tt) (omega arith)
