-- ===== src/Service/Defs.antt =====
-- The dependencies of ChatService (internal/service/chat_service.go).
use be_modami_chat_service.Prelude.{Time}
use be_modami_chat_service.Port.{
  MessageRepository, ConversationRepository, EventPublisher, RealtimePublisher, CacheStore,
  PresenceStore, RateLimiter, IdGenerator,
}

-- `now` is time.Now.
pub record ChatService (W : Type 0) : Type 0 where
  pub msg_repo : MessageRepository W
  pub conv_repo : ConversationRepository W
  pub publisher : EventPublisher W
  pub realtime : RealtimePublisher W
  pub cache : CacheStore W
  pub presence : PresenceStore W
  pub rate_limiter : RateLimiter W
  pub id_gen : IdGenerator W
  pub now : W → Time × W
