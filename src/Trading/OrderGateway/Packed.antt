-- ===== src/Trading/OrderGateway/Packed.antt =====
-- `OMClientResponse` and `MEClientResponse` (exchange/order_server/client_response.h) in memory, as they
-- are packed: the fields one after the other, each with its lowest byte first.
use nano_trade.Base.{ℕ, ◌<◌, ◌^◌, ◌≡◌, ◌∙◌, ap, refl, arith, ◌==◌, if◌then◌else◌, List, ◌++◌}
use nano_trade.Base.Slices.{take, drop}
use nano_trade.Base.Bytes.{
  bytes, number, number-bytes, bits_of, signed, IsI64, bits_of-lt, signed-bits_of,
}
use nano_trade.Common.Types.{Side}
use nano_trade.Common.Socket.Framing.{Layout, Parts}
use nano_trade.Exchange.Messages.{ClientResponseType, OmClientResponse}

abbrev pub type_code : ClientResponseType → ℕ
type_code ClientResponseType.invalid = 0
type_code ClientResponseType.accepted = 1
type_code ClientResponseType.canceled = 2
type_code ClientResponseType.filled = 3
type_code ClientResponseType.cancel_rejected = 4

abbrev pub type_of : ℕ → ClientResponseType
type_of n =
    if n == 1
    then ClientResponseType.accepted
    else if n == 2
    then ClientResponseType.canceled
    else if n == 3
    then ClientResponseType.filled
    else if n == 4
    then ClientResponseType.cancel_rejected
    else ClientResponseType.invalid

-- `Side` is an `int8_t`, so `SELL` is the byte of -1.
abbrev pub side_code : Side → ℕ
side_code Side.invalid = 0
side_code Side.buy = 1
side_code Side.sell = 255
side_code Side.max = 2

abbrev pub side_of : ℕ → Side
side_of n =
    if n == 1
    then Side.buy
    else if n == 255
    then Side.sell
    else if n == 2
    then Side.max
    else Side.invalid

-- The numbers of a response fit into its fields.
pub record IsPacked (m : OmClientResponse) : Type 0 where
  pub seq_num : m.seq_num < 2 ^ 64
  pub client_id : m.me_client_response.client_id < 2 ^ 32
  pub ticker_id : m.me_client_response.ticker_id < 2 ^ 32
  pub client_order_id : m.me_client_response.client_order_id < 2 ^ 64
  pub market_order_id : m.me_client_response.market_order_id < 2 ^ 64
  pub price : IsI64 m.me_client_response.price
  pub exec_qty : m.me_client_response.exec_qty < 2 ^ 32
  pub leaves_qty : m.me_client_response.leaves_qty < 2 ^ 32

abbrev pub body_bytes : OmClientResponse → List ℕ
body_bytes m =
    let r = m.me_client_response in
    bytes 1 (type_code r.type)
    ++ bytes 4 r.client_id
    ++ bytes 4 r.ticker_id
    ++ bytes 8 r.client_order_id
    ++ bytes 8 r.market_order_id
    ++ bytes 1 (side_code r.side)
    ++ bytes 8 (bits_of r.price)
    ++ bytes 4 r.exec_qty
    ++ bytes 4 r.leaves_qty

-- The number in the `w` bytes from the place `i` on.
abbrev pub field : (i w : ℕ) → List ℕ → ℕ
field i w bs = number (take w (drop i bs))

abbrev pub of_bytes : List ℕ → OmClientResponse
of_bytes bs = record {
  seq_num = field 0 8 bs;
  me_client_response = record {
    type = type_of (field 8 1 bs);
    client_id = field 9 4 bs;
    ticker_id = field 13 4 bs;
    client_order_id = field 17 8 bs;
    market_order_id = field 25 8 bs;
    side = side_of (field 33 1 bs);
    price = signed (field 34 8 bs);
    exec_qty = field 42 4 bs;
    leaves_qty = field 46 4 bs;
  };
}

type_of-field : (t : ClientResponseType) → type_of (number (bytes 1 (type_code t))) ≡ t
type_of-field ClientResponseType.invalid = refl
type_of-field ClientResponseType.accepted = refl
type_of-field ClientResponseType.canceled = refl
type_of-field ClientResponseType.filled = refl
type_of-field ClientResponseType.cancel_rejected = refl

side_of-field : (s : Side) → side_of (number (bytes 1 (side_code s))) ≡ s
side_of-field Side.invalid = refl
side_of-field Side.buy = refl
side_of-field Side.sell = refl
side_of-field Side.max = refl

pub of_bytes-bytes :
    (m : OmClientResponse) → IsPacked m → of_bytes (bytes 8 m.seq_num ++ body_bytes m) ≡ m
of_bytes-bytes m v = λ i. record {
  seq_num = number-bytes 8 m.seq_num v.seq_num i;
  me_client_response = record {
    type = type_of-field m.me_client_response.type i;
    client_id = number-bytes 4 m.me_client_response.client_id v.client_id i;
    ticker_id = number-bytes 4 m.me_client_response.ticker_id v.ticker_id i;
    client_order_id = number-bytes 8 m.me_client_response.client_order_id v.client_order_id i;
    market_order_id = number-bytes 8 m.me_client_response.market_order_id v.market_order_id i;
    side = side_of-field m.me_client_response.side i;
    price =
        (ap signed (
              number-bytes 8 (bits_of m.me_client_response.price)
                (bits_of-lt m.me_client_response.price v.price))
            ∙ signed-bits_of m.me_client_response.price v.price)
          i;
    exec_qty = number-bytes 4 m.me_client_response.exec_qty v.exec_qty i;
    leaves_qty = number-bytes 4 m.me_client_response.leaves_qty v.leaves_qty i;
  };
}

-- `sizeof(OMClientResponse)` is 50.
abbrev pub layout : Layout OmClientResponse
layout = record {
  size = 50;
  encode = λ m. bytes 8 m.seq_num ++ body_bytes m;
  decode = of_bytes;
  IsValue = IsPacked;
  size_pos = omega arith;
  length-encode = λ m. refl;
  decode-encode = of_bytes-bytes;
}

abbrev pub parts : Parts layout
parts = record { head = λ m. bytes 8 m.seq_num; body = body_bytes; encode_parts = λ m. refl }
