-- ===== src/Exchange/Sequencer/Tests.antt =====
-- The sequencer's theorem at concrete requests.
use nano_trade.Base.{ℕ, ◌≡◌, refl, arith, List, [], ◌∷◌, ◌++◌}
use nano_trade.Base.Int.{pos}
use mathlib.Core.List.{Perm}
use nano_trade.Common.Types.{Side}
use nano_trade.Common.LfQueue.{pushes}
use nano_trade.Common.LfQueue.Fifo.{IsValid, contents}
use nano_trade.Exchange.Messages.{MeClientRequest, ClientRequestType}
use nano_trade.Exchange.Sequencer.{
  RecvTimeClientRequest, IsAscending, FifoSequencer, sequence_and_publish, Sort,
}
use nano_trade.Exchange.Sequencer.Order.{requests, sequence_and_publish-contents}
use nano_trade.Exchange.Sequencer.Ties.{late_sort, published_reversed}

abbrev request : ℕ → MeClientRequest
request client_id = record {
  type = ClientRequestType.new;
  client_id = client_id;
  ticker_id = 0;
  order_id = 1;
  side = Side.sell;
  price = pos 90;
  qty = 5;
}

-- Two requests that were read in the opposite order of their receive times.
abbrev sequencer : FifoSequencer
sequencer = record {
  incoming_requests = record {
    store = λ _. request 0;
    capacity = 4;
    next_write_index = 2;
    next_read_index = 1;
    num_elements = 1;
  };
  pending =
      record { recv_time = 20; request = request 1 }
      ∷ record { recv_time = 10; request = request 2 }
      ∷ [];
}

queue-IsValid : IsValid sequencer.incoming_requests
queue-IsValid = record {
  small = omega arith;
  read_in = omega arith;
  fits = omega arith;
  write_at = refl;
}

sequence_and_publish-contents_example :
    (rs : List RecvTimeClientRequest) × (contents
        (sequence_and_publish late_sort sequencer).incoming_requests
      ≡ contents sequencer.incoming_requests ++ requests rs)
    × Perm rs sequencer.pending
    × IsAscending rs
    × ((sequence_and_publish late_sort sequencer).pending ≡ [])
    × IsValid (sequence_and_publish late_sort sequencer).incoming_requests
sequence_and_publish-contents_example =
    sequence_and_publish-contents late_sort sequencer queue-IsValid (omega arith)

published_reversed_example :
    (std : Sort) × (sequence_and_publish std (record {
      incoming_requests = sequencer.incoming_requests;
      pending =
          record { recv_time = 10; request = request 1 }
          ∷ record { recv_time = 10; request = request 2 }
          ∷ [];
    })
      ≡ record {
        incoming_requests = pushes sequencer.incoming_requests (request 2 ∷ request 1 ∷ []);
        pending = [];
      })
published_reversed_example =
    published_reversed sequencer.incoming_requests 10 (request 1) (request 2)
