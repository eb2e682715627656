-- ===== src/Backtest/LobsterReplay.antt =====
-- backtest/lobster_replay.h and lobster_replay.cpp: the rows of a file of recorded orders become market
-- updates. The file is the list of its lines; opening it, the thread and the logs are not modelled.
pub mod Slots
mod Tests
use nano_trade.Base.{
  ℕ, zero, suc, ◌+◌, Bool, true, false, ◌==◌, ltb, if◌then◌else◌, update, Option, none, some, List,
  [], ◌∷◌, ◌++◌,
}
use nano_trade.Base.Int.{ℤ, pos, negsuc, eqb_ℤ}
use nano_trade.Common.Types.{Side, me_max_order_ids, to_u64}
use nano_trade.Exchange.Messages.{MarketUpdateType, MeMarketUpdate, MdpMarketUpdate}
use nano_trade.Backtest.Csv.{Text, next_field}
use nano_trade.Backtest.Stream.{is_add, is_cancel, is_invalid}

-- What `std::from_chars` makes of a field, for each type of integer; the value stays 0 when there is
-- no number.
pub record FromChars : Type 0 where
  pub to_int : Text → ℤ
  pub to_uint64 : Text → ℕ
  pub to_price : Text → ℤ
  pub to_qty : Text → ℕ

unfoldable pub map_type : ℤ → MarketUpdateType
map_type t =
    if eqb_ℤ t (pos 1)
    then MarketUpdateType.add
    else if eqb_ℤ t (pos 2)
    then MarketUpdateType.modify
    else if eqb_ℤ t (pos 3)
    then MarketUpdateType.cancel
    else if eqb_ℤ t (pos 4)
    then MarketUpdateType.trade
    else if eqb_ℤ t (pos 5)
    then MarketUpdateType.trade
    else MarketUpdateType.invalid

-- The fields of a row that are read.
pub record Row : Type 0 where
  pub lobster_type : ℤ
  pub lobster_oid : ℕ
  pub size : ℕ
  pub price : ℤ
  pub direction : ℤ

unfoldable pub parse_row : FromChars → Text → Row
parse_row from_chars line =
    let (_, s₁) = next_field line in
    let (type_field, s₂) = next_field s₁ in
    let (oid_field, s₃) = next_field s₂ in
    let (size_field, s₄) = next_field s₃ in
    let (price_field, s₅) = next_field s₄ in
    let (dir_field, _) = next_field s₅ in
    record {
      lobster_type = from_chars.to_int type_field;
      lobster_oid = from_chars.to_uint64 oid_field;
      size = from_chars.to_qty size_field;
      price = from_chars.to_price price_field;
      direction = from_chars.to_int dir_field;
    }

-- `emitted` stands for what is pushed to the output queue, and to that of the simulator where there
-- is one, in order: before each push the thread waits for room in both. `ended` is set by the
-- `break` of the loop.
pub record LobsterReplay : Type 0 where
  pub ticker_id : ℕ
  pub lobster_id_to_slot : ℕ → Option ℕ
  pub next_slot : ℕ
  pub seq_num : ℕ
  pub rows_emitted : ℕ
  pub rows_skipped : ℕ
  pub emitted : List MdpMarketUpdate
  pub ended : Bool

unfoldable pub init : ℕ → LobsterReplay
init ticker_id = record {
  ticker_id = ticker_id;
  lobster_id_to_slot = λ _. none;
  next_slot = 0;
  seq_num = 1;
  rows_emitted = 0;
  rows_skipped = 0;
  emitted = [];
  ended = false;
}

abbrev pub skip_row : LobsterReplay → LobsterReplay
skip_row s = record s { rows_skipped = s.rows_skipped + 1 }

unfoldable pub row_update : (ticker_id slot : ℕ) → MarketUpdateType → Row → MeMarketUpdate
row_update ticker_id slot type row = record {
  type = type;
  order_id = slot;
  ticker_id = ticker_id;
  side = if eqb_ℤ row.direction (pos 1) then Side.buy else Side.sell;
  price = row.price;
  qty = row.size;
  priority = slot;
}

-- The row goes out under its slot; after a CANCEL the slot is forgotten.
unfoldable pub emit_row : LobsterReplay → (slot : ℕ) → MarketUpdateType → Row → LobsterReplay
emit_row s slot type row = record s {
  emitted =
      s.emitted
      ++ record { seq_num = s.seq_num; me_market_update = row_update s.ticker_id slot type row }
        ∷ [];
  seq_num = to_u64 (s.seq_num + 1);
  rows_emitted = s.rows_emitted + 1;
  lobster_id_to_slot =
      if is_cancel type
      then update s.lobster_id_to_slot row.lobster_oid none
      else s.lobster_id_to_slot;
}

-- A row of an order that has no slot: only an ADD is given one.
unfoldable pub new_row : LobsterReplay → MarketUpdateType → Row → LobsterReplay
unfolding emit_row
new_row s type row =
    if is_add type
    then if ltb s.next_slot me_max_order_ids
      then emit_row
          (record s {
            lobster_id_to_slot = update s.lobster_id_to_slot row.lobster_oid (some s.next_slot);
            next_slot = s.next_slot + 1;
          })
          s.next_slot type row
      else record s { ended = true }
    else skip_row s

unfoldable pub slot_row : LobsterReplay → Option ℕ → MarketUpdateType → Row → LobsterReplay
unfolding new_row
slot_row s none type row = new_row s type row
slot_row s (some slot) type row = emit_row s slot type row

unfoldable pub replay_row : LobsterReplay → Row → LobsterReplay
unfolding slot_row
replay_row s row =
    let type = map_type row.lobster_type in
    if is_invalid type
    then skip_row s
    else slot_row s (s.lobster_id_to_slot row.lobster_oid) type row

unfoldable pub replay_line : FromChars → LobsterReplay → Text → LobsterReplay
unfolding replay_row
replay_line from_chars s [] = s
replay_line from_chars s (c ∷ cs) = replay_row s (parse_row from_chars (c ∷ cs))

-- The loop of `run` over the lines of the file, while it is not stopped.
unfoldable pub replay_lines : FromChars → LobsterReplay → List Text → LobsterReplay
unfolding replay_line
replay_lines from_chars s [] = s
replay_lines from_chars s (l ∷ ls) =
    let rest = replay_lines from_chars (replay_line from_chars s l) ls in
    if s.ended then s else rest
