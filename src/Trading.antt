-- ===== src/Trading.antt =====
-- The trading client of trading/: the gateway and the order manager.
pub mod MarketOrder
pub mod MarketOrderBook
pub mod PositionKeeper
pub mod MarketDataConsumer
pub mod OrderGateway
pub mod RiskManager
pub mod OrderManager
pub mod FeatureEngine
pub mod Strategies
pub mod TradeEngine
