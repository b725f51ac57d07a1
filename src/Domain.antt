-- ===== src/Domain.antt =====
-- The data that the components exchange: include/Domain and src/Domain.
pub mod Text
pub mod Float
pub mod Order
pub mod Pods
pub mod TradeHistory
