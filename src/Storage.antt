-- ===== src/Storage.antt =====
-- The order book of one symbol: include/Storage and src/Storage.
pub mod Levels
pub mod LinkedList
pub mod PriceMap
pub mod Binary
pub mod Multiset
