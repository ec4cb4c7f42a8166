-- ===== src/Adapter/Repository.antt =====
-- internal/adapter/repository: the repositories over ScyllaDB.
pub mod Session
pub mod Schema
pub mod Codec
pub mod Paging
pub mod MessageRows
pub mod MessageRepo
pub mod ConversationRows
pub mod ConversationRepo
pub mod Wiring
