-- ===== src/Exchange.antt =====
-- The exchange of exchange/: messages, the order book and the matching engine, the order server and
-- the market data.
pub mod Messages
pub mod Book
pub mod MatchingEngine
pub mod Sequencer
pub mod OrderServer
pub mod Snapshot
