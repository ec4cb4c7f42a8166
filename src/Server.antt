-- ===== src/Server.antt =====
-- cmd/server
pub mod Application
