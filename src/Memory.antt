-- ===== src/Memory.antt =====
-- Preallocated memory of one symbol: include/Memory and src/Memory.
pub mod OrderPool
pub mod IdIndexMap
