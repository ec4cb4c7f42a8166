-- ===== src/Adapter.antt =====
-- internal/adapter: the implementations of the ports over ScyllaDB and Redis, and the HTTP handlers.
pub mod Repository
pub mod Cache
pub mod Handler
pub mod Messaging
