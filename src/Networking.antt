-- ===== src/Networking.antt =====
-- The wire protocol and the server's framing: include/Networking and src/Networking.
pub mod Protocol
pub mod TcpServer
