-- ===== src/Adapter/Cache/Wiring.antt =====
-- The stores as implementations of their ports: NewCacheStore, NewPresenceStore, NewRateLimiter.
use be_modami_chat_service.Prelude.{ℕ}
use be_modami_chat_service.Port.{CacheStore, PresenceStore, RateLimiter}
use be_modami_chat_service.Adapter.Cache.Redis.{Redis}
use be_modami_chat_service.Adapter.Cache.CacheStore as unread
use be_modami_chat_service.Adapter.Cache.PresenceStore as online
use be_modami_chat_service.Adapter.Cache.RateLimiter as limits

module _ {W : Type 0} (client : Redis W) where
  abbrev pub new_cache_store : CacheStore W
  new_cache_store = record {
    increment_unread = unread.increment_unread client;
    clear_unread = unread.clear_unread client;
    get_unread_counts = unread.get_unread_counts client;
  }

  abbrev pub new_rate_limiter : RateLimiter W
  new_rate_limiter = record { allow_message = limits.allow_message client }

  -- `unix` is time.Now().Unix().
  abbrev pub new_presence_store : (unix : W → ℕ × W) → PresenceStore W
  new_presence_store unix = record {
    set_online = online.set_online client unix;
    set_offline = online.set_offline client;
    is_online = online.is_online client;
    get_online_users = online.get_online_users client;
    set_typing = online.set_typing client unix;
    clear_typing = online.clear_typing client;
  }
