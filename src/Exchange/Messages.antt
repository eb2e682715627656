-- ===== src/Exchange/Messages.antt =====
-- The messages between the components: exchange/order_server/client_request.h,
-- exchange/order_server/client_response.h and exchange/market_data/market_update.h.
use nano_trade.Base.{ℕ}
use nano_trade.Base.Int.{ℤ}
use nano_trade.Common.Types.{Side}

pub data ClientRequestType : Type 0 where
  invalid new cancel : ClientRequestType

pub record MeClientRequest : Type 0 where
  pub type : ClientRequestType
  pub client_id : ℕ
  pub ticker_id : ℕ
  pub order_id : ℕ
  pub side : Side
  pub price : ℤ
  pub qty : ℕ

-- A request on the wire, under its sequence number.
pub record OmClientRequest : Type 0 where
  pub seq_num : ℕ
  pub me_client_request : MeClientRequest

pub data ClientResponseType : Type 0 where
  invalid accepted canceled filled cancel_rejected : ClientResponseType

pub record MeClientResponse : Type 0 where
  pub type : ClientResponseType
  pub client_id : ℕ
  pub ticker_id : ℕ
  pub client_order_id : ℕ
  pub market_order_id : ℕ
  pub side : Side
  pub price : ℤ
  pub exec_qty : ℕ
  pub leaves_qty : ℕ

pub record OmClientResponse : Type 0 where
  pub seq_num : ℕ
  pub me_client_response : MeClientResponse

pub data MarketUpdateType : Type 0 where
  invalid clear add modify cancel trade snapshot_start snapshot_end : MarketUpdateType

pub record MeMarketUpdate : Type 0 where
  pub type : MarketUpdateType
  pub order_id : ℕ
  pub ticker_id : ℕ
  pub side : Side
  pub price : ℤ
  pub qty : ℕ
  pub priority : ℕ

pub record MdpMarketUpdate : Type 0 where
  pub seq_num : ℕ
  pub me_market_update : MeMarketUpdate
