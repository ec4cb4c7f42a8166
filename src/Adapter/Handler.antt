-- ===== src/Adapter/Handler.antt =====
-- internal/adapter/handler: what the HTTP handlers decide.
pub mod Errors
pub mod Paging
pub mod Requests
pub mod Chat
pub mod Proxy
pub mod Middleware
