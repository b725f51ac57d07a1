-- ===== src/Routing.antt =====
-- The router from symbols to their workers: include/Routing and src/Routing.
pub mod OrderRouter
