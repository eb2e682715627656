-- ===== src/Backtest.antt =====
-- The backtest of backtest/: fills without an exchange.
pub mod Csv
pub mod Stream
pub mod BinanceReplay
pub mod LobsterReplay
pub mod FillSimulator
