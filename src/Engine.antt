-- ===== src/Engine.antt =====
-- Matching: include/Engine and src/Engine.
pub mod BookApi
pub mod Matching
pub mod CoreEngine
