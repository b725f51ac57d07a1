-- ===== src/Concurrency.antt =====
-- The queue of incoming orders and the worker of a symbol: include/Concurrency and src/Concurrency.
pub mod LockFreeQueue
pub mod OrderQueue
pub mod Worker
pub mod ClientSimulator
pub mod SymbolWorker
