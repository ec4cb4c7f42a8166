-- ===== src/Service.antt =====
-- internal/service: the chat's use cases.
pub mod Defs
pub mod SendMessage
pub mod CreateConversation
pub mod ChatService
pub mod Traced
pub mod Rules
pub mod Failures
