-- ===== src/Exchange/Sequencer.antt =====
-- exchange/order_server/fifo_sequencer.h: requests wait until a round of reads is over, and then go
-- to the matching engine in the order of their receive times.
pub mod Order
pub mod Ties
mod Tests
use nano_trade.Base.{ℕ, ◌≤◌, leb, if◌then◌else◌, List, [], ◌∷◌, ◌++◌, map}
use nano_trade.Base.Lists.{length, All}
use nano_trade.Base.Outcome.{Outcome, ok, fault, fatal}
use mathlib.Core.List.{Perm}
use nano_trade.Common.LfQueue.{LfQueue, pushes}
use nano_trade.Exchange.Messages.{MeClientRequest}

abbrev pub me_max_pending_requests : ℕ
me_max_pending_requests = 1024

pub record RecvTimeClientRequest : Type 0 where
  pub recv_time : ℕ
  pub request : MeClientRequest

-- No receive time is below one before it.
abbrev pub IsAscending : List RecvTimeClientRequest → Type 0
IsAscending [] = Unit
IsAscending (x ∷ xs) = All (λ y. x.recv_time ≤ y.recv_time) xs × IsAscending xs

-- `std::sort` with the struct's `operator<`: it arranges the elements in ascending order. Nothing is
-- promised of elements that compare equal.
pub record Sort : Type 0 where
  pub sort : List RecvTimeClientRequest → List RecvTimeClientRequest
  pub sort-perm : (xs : List RecvTimeClientRequest) → Perm (sort xs) xs
  pub sort-IsAscending : (xs : List RecvTimeClientRequest) → IsAscending (sort xs)

-- `pending` is the part of the array below `pending_size_`.
pub record FifoSequencer : Type 0 where
  pub incoming_requests : LfQueue MeClientRequest
  pub pending : List RecvTimeClientRequest

unfoldable pub add_client_request : FifoSequencer → ℕ → MeClientRequest → Outcome FifoSequencer
add_client_request s rx_time request =
    if leb me_max_pending_requests (length s.pending)
    then fault fatal
    else ok
        (record s { pending = s.pending ++ record { recv_time = rx_time; request = request } ∷ [] })

-- The sorted requests are written to the queue one by one.
unfoldable pub sequence_and_publish : Sort → FifoSequencer → FifoSequencer
sequence_and_publish std s = record {
  incoming_requests = pushes s.incoming_requests (map (λ r. r.request) (std.sort s.pending));
  pending = [];
}
