-- ===== src/Trading/MarketDataConsumer/Tests.antt =====
-- The consumer's theorems at a concrete stream.
use nano_trade.Base.{ℕ, ◌≡◌, refl, arith, true, false, [], ◌∷◌, ◌++◌, ◌+◌}
use nano_trade.Base.Int.{pos}
use nano_trade.Common.Types.{Side}
use nano_trade.Common.LfQueue.{pushes}
use nano_trade.Exchange.Messages.{MarketUpdateType, MeMarketUpdate}
use nano_trade.Trading.MarketDataConsumer.{MarketDataConsumer, recv_callback}
use nano_trade.Trading.MarketDataConsumer.Delivery.{numbered, recv_callback-in_order}
use nano_trade.Trading.MarketDataConsumer.Recovery.{recovered, recv_callback-recovers}

abbrev update : MarketUpdateType → ℕ → MeMarketUpdate
update type order_id = record {
  type = type;
  order_id = order_id;
  ticker_id = 0;
  side = Side.buy;
  price = pos 100;
  qty = 10;
  priority = 1;
}

abbrev consumer : MarketDataConsumer
consumer = record {
  next_exp_inc_seq_num = 4;
  incoming_md_updates = record {
    store = λ _. update MarketUpdateType.invalid 0;
    capacity = 16;
    next_write_index = 0;
    next_read_index = 0;
    num_elements = 0;
  };
  in_recovery = false;
  snapshot_queued_msgs = [];
  incremental_queued_msgs = [];
}

-- Number 4 was lost; 6, 9 and 10 wait.
abbrev recovering : MarketDataConsumer
recovering = record consumer {
  in_recovery = true;
  incremental_queued_msgs =
      (6, update MarketUpdateType.add 60)
      ∷ (9, update MarketUpdateType.add 90)
      ∷ (10, update MarketUpdateType.cancel 60)
      ∷ [];
}

recv_callback-in_order_example :
    recv_callback false consumer
      (numbered 4 (update MarketUpdateType.add 1 ∷ update MarketUpdateType.trade 1 ∷ []))
    ≡ record consumer {
      next_exp_inc_seq_num = 4 + 2;
      incoming_md_updates =
          pushes consumer.incoming_md_updates
            (update MarketUpdateType.add 1 ∷ update MarketUpdateType.trade 1 ∷ []);
    }
recv_callback-in_order_example =
    recv_callback-in_order (update MarketUpdateType.add 1 ∷ update MarketUpdateType.trade 1 ∷ [])
      consumer refl (omega arith)

-- The snapshot holds everything up to number 8.
recv_callback-recovers_example :
    recv_callback true recovering (
      numbered 0 (
        update MarketUpdateType.snapshot_start 8
          ∷ (update MarketUpdateType.clear 0 ∷ update MarketUpdateType.add 60 ∷ [])
        ++ update MarketUpdateType.snapshot_end 8 ∷ []))
    ≡ recovered recovering 8
        (update MarketUpdateType.clear 0 ∷ update MarketUpdateType.add 60 ∷ [])
        (update MarketUpdateType.add 90 ∷ update MarketUpdateType.cancel 60 ∷ [])
recv_callback-recovers_example =
    recv_callback-recovers recovering (update MarketUpdateType.snapshot_start 8)
      (update MarketUpdateType.clear 0 ∷ update MarketUpdateType.add 60 ∷ [])
      ((6, update MarketUpdateType.add 60) ∷ [])
      (update MarketUpdateType.add 90 ∷ update MarketUpdateType.cancel 60 ∷ [])
      (update MarketUpdateType.snapshot_end 8) refl refl refl refl
      ((refl, refl), ((refl, refl), tt)) ((refl, refl), ((refl, refl), tt)) refl (omega arith, tt)
      (omega arith)
