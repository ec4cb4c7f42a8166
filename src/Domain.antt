-- ===== src/Domain.antt =====
-- internal/domain: the entities and value objects of the chat.
pub mod Conversation
pub mod Message
pub mod Cursor
