-- ===== src/Common.antt =====
-- The infrastructure of common/: the queue and the memory pools.
pub mod LfQueue
pub mod MemPool
pub mod Types
pub mod Socket
pub mod TcpServer
pub mod Logger
