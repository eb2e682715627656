-- ===== src/Common/Types.antt =====
-- common/types.h: the bounds, the invalid values, and the sides. Identifiers, quantities and
-- priorities are the numbers that the unsigned types hold; a `Price` is a signed 64-bit integer.
use nano_trade.Base.{ℕ, ◌-◌, ◌*◌, ◌^◌, ◌%◌, Bool, true, false}
use nano_trade.Base.Int.{ℤ, pos, negsuc}

abbrev pub me_max_tickers : ℕ
me_max_tickers = 8

abbrev pub me_max_client_updates : ℕ
me_max_client_updates = 256 * 1024

abbrev pub me_max_market_updates : ℕ
me_max_market_updates = 256 * 1024

abbrev pub me_max_num_clients : ℕ
me_max_num_clients = 256

abbrev pub me_max_order_ids : ℕ
me_max_order_ids = 1024 * 1024

abbrev pub me_max_price_levels : ℕ
me_max_price_levels = 2 * 1024 * 1024

abbrev pub order_id_invalid : ℕ
order_id_invalid = 2 ^ 64 - 1

abbrev pub ticker_id_invalid : ℕ
ticker_id_invalid = 2 ^ 32 - 1

abbrev pub client_id_invalid : ℕ
client_id_invalid = 2 ^ 32 - 1

abbrev pub price_invalid : ℤ
price_invalid = pos (2 ^ 63 - 1)

abbrev pub qty_invalid : ℕ
qty_invalid = 2 ^ 32 - 1

abbrev pub priority_invalid : ℕ
priority_invalid = 2 ^ 64 - 1

-- A `Qty` holds 32 bits, an `OrderId` and a `Priority` hold 64.
abbrev pub to_qty : ℕ → ℕ
to_qty n = n % 2 ^ 32

abbrev pub to_u64 : ℕ → ℕ
to_u64 n = n % 2 ^ 64

pub data Side : Type 0 where
  invalid buy sell max : Side

abbrev pub is_buy : Side → Bool
is_buy Side.buy = true
is_buy Side.invalid = false
is_buy Side.sell = false
is_buy Side.max = false

abbrev pub is_sell : Side → Bool
is_sell Side.sell = true
is_sell Side.invalid = false
is_sell Side.buy = false
is_sell Side.max = false

-- `static_cast<size_t>(side) + 1`, where SELL is -1 and the sum wraps.
unfoldable pub side_to_index : Side → ℕ
side_to_index Side.invalid = 1
side_to_index Side.buy = 2
side_to_index Side.sell = 0
side_to_index Side.max = 3

unfoldable pub side_to_value : Side → ℤ
side_to_value Side.invalid = pos 0
side_to_value Side.buy = pos 1
side_to_value Side.sell = negsuc 0
side_to_value Side.max = pos 2
