-- ===== src/Adapter/Handler/Middleware.antt =====
-- internal/adapter/handler/middleware: who a request comes from.
pub mod Claims
pub mod Keys
pub mod Jwks
pub mod Auth
pub mod KnownKeys
pub mod Access
