-- ===== src/Adapter/Cache.antt =====
-- internal/adapter/cache: the stores over Redis.
pub mod Redis
pub mod CacheStore
pub mod PresenceStore
pub mod RateLimiter
pub mod Wiring
