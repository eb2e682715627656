-- ===== src/Exchange/Sequencer/Order.antt =====
-- What reaches the matching engine, and in which order.
use nano_trade.Base.{◌+◌, ◌≤◌, ◌≡◌, refl, arith, List, [], ◌++◌, map}
use nano_trade.Base.Lists.{length, length-map, length-perm}
use mathlib.Core.List.{Perm}
use nano_trade.Common.LfQueue.Fifo.{IsValid, contents, pushes-contents}
use nano_trade.Exchange.Messages.{MeClientRequest}
use nano_trade.Exchange.Sequencer.{
  RecvTimeClientRequest, IsAscending, Sort, FifoSequencer, sequence_and_publish,
}

abbrev pub requests : List RecvTimeClientRequest → List MeClientRequest
requests = map λ r. r.request

-- With room in its valid queue for all pending requests: the matching engine finds them behind what
-- was in the queue, each of them once and in the order of their receive times, and none is pending
-- any more.
pub sequence_and_publish-contents :
    (std : Sort) (s : FifoSequencer)
    → IsValid s.incoming_requests
    → s.incoming_requests.num_elements + length s.pending ≤ s.incoming_requests.capacity
    → (rs : List RecvTimeClientRequest) × (contents (sequence_and_publish std s).incoming_requests
        ≡ contents s.incoming_requests ++ requests rs)
      × Perm rs s.pending
      × IsAscending rs
      × ((sequence_and_publish std s).pending ≡ [])
      × IsValid (sequence_and_publish std s).incoming_requests
unfolding sequence_and_publish
sequence_and_publish-contents std s v h =
    let (w, e) = pushes-contents s.incoming_requests (requests (std.sort s.pending)) v (
      omega (
        arith,
        length-map {0, 0} (λ (r : RecvTimeClientRequest). r.request) (std.sort s.pending),
        length-perm {0} (std.sort-perm s.pending),
      )) in
    (std.sort s.pending, e, std.sort-perm s.pending, std.sort-IsAscending s.pending, refl, w)
