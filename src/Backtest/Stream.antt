-- ===== src/Backtest/Stream.antt =====
-- The stream of market updates that a replay of the backtest puts out, as a book needs it: an update of
-- an order comes between its ADD and its CANCEL.
use nano_trade.Base.{
  ℕ, ◌+◌, ◌<◌, ◌≡◌, refl, Bool, true, false, not, ◌||◌, if◌then◌else◌, update, List, [], ◌∷◌, ◌++◌,
}
use nano_trade.Common.Types.{me_max_order_ids, to_u64}
use nano_trade.Exchange.Messages.{MarketUpdateType, MeMarketUpdate, MdpMarketUpdate}

abbrev pub is_add : MarketUpdateType → Bool
is_add MarketUpdateType.add = true
is_add _ = false

abbrev pub is_cancel : MarketUpdateType → Bool
is_cancel MarketUpdateType.cancel = true
is_cancel _ = false

abbrev pub is_invalid : MarketUpdateType → Bool
is_invalid MarketUpdateType.invalid = true
is_invalid _ = false

-- The updates that change an order which is there.
abbrev pub is_change : MarketUpdateType → Bool
is_change MarketUpdateType.modify = true
is_change MarketUpdateType.cancel = true
is_change _ = false

-- The orders that the stream has added and not cancelled.
abbrev pub Live : Type 0
Live = ℕ → Bool

abbrev pub after : Live → MeMarketUpdate → Live
after live u =
    if is_add u.type
    then update live u.order_id true
    else if is_cancel u.type
    then update live u.order_id false
    else live

-- From the number `n` on and with these orders live: the messages are numbered in turn, their order
-- numbers are inside the arrays of a book, and those of the kinds in `needs` are about live orders.
abbrev pub IsStream : (needs : MarketUpdateType → Bool) → ℕ → Live → List MdpMarketUpdate → Type 0
IsStream needs n live [] = Unit
IsStream needs n live (m ∷ ms) =
    let u = m.me_market_update in
    (m.seq_num ≡ n)
    × (u.order_id < me_max_order_ids)
    × ((not (needs u.type) || live u.order_id) ≡ true)
    × IsStream needs (to_u64 (n + 1)) (after live u) ms

-- The live orders after the messages.
abbrev pub final : Live → List MdpMarketUpdate → Live
final live [] = live
final live (m ∷ ms) = final (after live m.me_market_update) ms

abbrev pub next_num : ℕ → List MdpMarketUpdate → ℕ
next_num n [] = n
next_num n (m ∷ ms) = next_num (to_u64 (n + 1)) ms

pub IsStream-snoc :
    (needs : MarketUpdateType → Bool) (n : ℕ) (live : Live) (ms : List MdpMarketUpdate)
    (m : MdpMarketUpdate)
    → IsStream needs n live ms
    → IsStream needs (next_num n ms) (final live ms) (m ∷ [])
    → IsStream needs n live (ms ++ m ∷ [])
IsStream-snoc needs n live [] m s t = t
IsStream-snoc needs n live (x ∷ xs) m s t =
    (s.0, s.1, s.2, IsStream-snoc needs (to_u64 (n + 1)) (after live x.me_market_update) xs m s.3 t)

pub final-snoc :
    (live : Live) (ms : List MdpMarketUpdate) (m : MdpMarketUpdate)
    → final live (ms ++ m ∷ []) ≡ after (final live ms) m.me_market_update
final-snoc live [] m = refl
final-snoc live (x ∷ xs) m = final-snoc (after live x.me_market_update) xs m

pub next_num-snoc :
    (n : ℕ) (ms : List MdpMarketUpdate) (m : MdpMarketUpdate)
    → next_num n (ms ++ m ∷ []) ≡ to_u64 (next_num n ms + 1)
next_num-snoc n [] m = refl
next_num-snoc n (x ∷ xs) m = next_num-snoc (to_u64 (n + 1)) xs m

abbrev pub no_orders : Live
no_orders i = false
