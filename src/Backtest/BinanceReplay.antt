-- ===== src/Backtest/BinanceReplay.antt =====
-- backtest/binance_aggtrades_replay.h and binance_aggtrades_replay.cpp: a file of trades becomes market
-- updates, with one made-up order on each side. The file is the list of its lines; opening it, the
-- thread and the logs are not modelled.
pub mod Sides
pub mod Trades
mod Tests
use nano_trade.Base.{
  ℕ, ◌+◌, ◌-◌, Bool, true, false, ◌&&◌, ◌||◌, not, ◌==◌, ltb, leb, if◌then◌else◌, List, [], ◌∷◌,
  ◌++◌,
}
use nano_trade.Base.Int.{ℤ, pos, eqb_ℤ}
use nano_trade.Base.Double.{Double, mul, of_int}
use nano_trade.Common.Types.{Side, me_max_order_ids, price_invalid, to_u64}
use nano_trade.Exchange.Messages.{MarketUpdateType, MeMarketUpdate, MdpMarketUpdate}
use nano_trade.Backtest.Csv.{Text, next_field}

-- What `std::from_chars` makes of a field, 0 when there is no number, and the conversions of a
-- `double` to the types of prices and quantities.
pub record FromChars (W : Type 0) : Type 0 where
  pub to_double : Text → W
  pub to_price : W → ℤ
  pub to_qty : W → ℕ

-- "T", "t" or "1" at the start of the field.
unfoldable pub parse_bool_field : Text → Bool
parse_bool_field [] = false
parse_bool_field (c ∷ cs) = (c == 84) || ((c == 116) || (c == 49))

abbrev pub price_scale : ℤ
price_scale = pos 100

abbrev pub qty_scale : ℤ
qty_scale = pos 1000000

-- The fields of a row that are read.
pub record Row : Type 0 where
  pub scaled_price : ℤ
  pub scaled_qty : ℕ
  pub is_buyer_maker : Bool

unfoldable pub parse_row : {W : Type 0} ⦃d : Double W⦄ → FromChars W → Text → Row
unfolding parse_bool_field
parse_row from_chars line =
    let (_, s₁) = next_field line in
    let (price_field, s₂) = next_field s₁ in
    let (qty_field, s₃) = next_field s₂ in
    let (_, s₄) = next_field s₃ in
    let (_, s₅) = next_field s₄ in
    let (_, s₆) = next_field s₅ in
    let (is_maker_field, _) = next_field s₆ in
    record {
      scaled_price =
          from_chars.to_price (mul (from_chars.to_double price_field) (of_int price_scale));
      scaled_qty = from_chars.to_qty (mul (from_chars.to_double qty_field) (of_int qty_scale));
      is_buyer_maker = parse_bool_field is_maker_field;
    }

abbrev pub synthetic_side_qty : ℕ
synthetic_side_qty = 1000000

abbrev pub max_oid : ℕ
max_oid = me_max_order_ids - 1

-- The members and the local variables of `run`. `emitted` stands for what `push` puts into the
-- output queue, and into that of the simulator where there is one, in order: before each push the
-- thread waits for room in both.
pub record BinanceReplay : Type 0 where
  pub ticker_id : ℕ
  pub best_bid : ℤ
  pub best_ask : ℤ
  pub bid_oid : ℕ
  pub ask_oid : ℕ
  pub next_oid : ℕ
  pub seq_num : ℕ
  pub rows_emitted : ℕ
  pub rows_skipped : ℕ
  pub trades_processed : ℕ
  pub emitted : List MdpMarketUpdate

unfoldable pub init : ℕ → BinanceReplay
init ticker_id = record {
  ticker_id = ticker_id;
  best_bid = price_invalid;
  best_ask = price_invalid;
  bid_oid = 0;
  ask_oid = 0;
  next_oid = 1;
  seq_num = 1;
  rows_emitted = 0;
  rows_skipped = 0;
  trades_processed = 0;
  emitted = [];
}

unfoldable pub push : BinanceReplay → MeMarketUpdate → BinanceReplay
push s u = record s {
  emitted = s.emitted ++ record { seq_num = s.seq_num; me_market_update = u } ∷ [];
  seq_num = to_u64 (s.seq_num + 1);
  rows_emitted = s.rows_emitted + 1;
}

-- What `fresh_oid` leaves in `next_oid`, whose value before it returns.
unfoldable pub oid_after : ℕ → ℕ
oid_after oid = if ltb max_oid (oid + 1) then 1 else oid + 1

-- The made-up order of a side.
abbrev pub side_update : (ticker_id oid : ℕ) → MarketUpdateType → Side → ℤ → MeMarketUpdate
side_update ticker_id oid type side price = record {
  type = type;
  order_id = oid;
  ticker_id = ticker_id;
  side = side;
  price = price;
  qty = synthetic_side_qty;
  priority = oid;
}

unfoldable pub cancel_bid : BinanceReplay → BinanceReplay
unfolding push
cancel_bid s =
    if eqb_ℤ s.best_bid price_invalid
    then s
    else push s (side_update s.ticker_id s.bid_oid MarketUpdateType.cancel Side.buy s.best_bid)

unfoldable pub add_bid : BinanceReplay → ℤ → BinanceReplay
unfolding push oid_after
add_bid s price =
    push (record s { bid_oid = s.next_oid; next_oid = oid_after s.next_oid; best_bid = price })
      (side_update s.ticker_id s.next_oid MarketUpdateType.add Side.buy price)

unfoldable pub cancel_ask : BinanceReplay → BinanceReplay
unfolding push
cancel_ask s =
    if eqb_ℤ s.best_ask price_invalid
    then s
    else push s (side_update s.ticker_id s.ask_oid MarketUpdateType.cancel Side.sell s.best_ask)

unfoldable pub add_ask : BinanceReplay → ℤ → BinanceReplay
unfolding push oid_after
add_ask s price =
    push (record s { ask_oid = s.next_oid; next_oid = oid_after s.next_oid; best_ask = price })
      (side_update s.ticker_id s.next_oid MarketUpdateType.add Side.sell price)

-- The side that the trade met is moved to its price.
unfoldable pub move_side : BinanceReplay → Bool → ℤ → BinanceReplay
unfolding cancel_bid add_bid cancel_ask add_ask
move_side s is_buyer_maker price =
    if is_buyer_maker
    then if eqb_ℤ price s.best_bid then s else add_bid (cancel_bid s) price
    else if eqb_ℤ price s.best_ask
    then s
    else add_ask (cancel_ask s) price

abbrev pub trade_update : (ticker_id : ℕ) → Row → MeMarketUpdate
trade_update ticker_id row = record {
  type = MarketUpdateType.trade;
  order_id = 0;
  ticker_id = ticker_id;
  side = if row.is_buyer_maker then Side.sell else Side.buy;
  price = row.scaled_price;
  qty = row.scaled_qty;
  priority = 0;
}

abbrev pub skip_row : BinanceReplay → BinanceReplay
skip_row s = record s { rows_skipped = s.rows_skipped + 1 }

unfoldable pub replay_trade : BinanceReplay → Row → BinanceReplay
unfolding move_side
replay_trade s row =
    if row.scaled_qty == 0
    then skip_row s
    else push
        (move_side (record s { trades_processed = s.trades_processed + 1 }) row.is_buyer_maker
          row.scaled_price)
        (trade_update s.ticker_id row)

-- `std::isdigit`
abbrev pub is_digit : ℕ → Bool
is_digit c = leb 48 c && leb c 57

unfoldable pub trade_line :
    {W : Type 0} ⦃d : Double W⦄ → FromChars W → BinanceReplay → Text → BinanceReplay
unfolding replay_trade
trade_line from_chars s [] = s
trade_line from_chars s (c ∷ cs) =
    if (s.rows_emitted == 0) && ((s.trades_processed == 0) && not (is_digit c))
    then skip_row s
    else replay_trade s (parse_row from_chars (c ∷ cs))

-- The loop of `run` over the lines of the file, while it is not stopped.
unfoldable pub replay_trades :
    {W : Type 0} ⦃d : Double W⦄ → FromChars W → BinanceReplay → List Text → BinanceReplay
unfolding trade_line
replay_trades from_chars s [] = s
replay_trades from_chars s (l ∷ ls) = replay_trades from_chars (trade_line from_chars s l) ls
