-- ===== src/Adapter/Repository/Session.antt =====
-- The tables of internal/adapter/repository/schema.go, and the gocql session as what the
-- repositories ask of it: one call for each statement of their source, on a world `W`. The session
-- is not code of this repository; what the theorems rely on are hypotheses about these calls.
-- A Scan of no row is the error `gocql_not_found`.
use be_modami_chat_service.Prelude.{ℕ, Bool, List, Time}
use be_modami_chat_service.Prelude.Int.{ℤ}
use be_modami_chat_service.Text.{GoString}
use be_modami_chat_service.Exec.{Exec}
use be_modami_chat_service.Domain.Cursor.{Cursor}

-- The columns of chat.messages.
pub record MessageRow : Type 0 where
  pub conversation_id : GoString
  pub created_at : Time
  pub id : GoString
  pub sender_id : GoString
  pub type : GoString
  pub content_text : GoString
  pub content_mentions : List GoString
  pub media_url : GoString
  pub media_thumbnail_url : GoString
  pub media_mime_type : GoString
  pub media_file_size : ℤ
  pub media_file_name : GoString
  pub media_width : ℤ
  pub media_height : ℤ
  pub reply_to_id : GoString
  pub reply_to_sender_id : GoString
  pub reply_to_preview : GoString
  pub forwarded_from_id : GoString
  pub forwarded_from_sender_id : GoString
  pub reactions : GoString
  pub edited : Bool
  pub deleted : Bool

-- The primary key of chat.messages.
pub record MessageKey : Type 0 where
  pub conversation_id : GoString
  pub created_at : Time
  pub id : GoString

-- The columns of chat.messages_by_id.
pub record LookupRow : Type 0 where
  pub id : GoString
  pub conversation_id : GoString
  pub created_at : Time

-- The columns of chat.conversations.
pub record ConversationRow : Type 0 where
  pub id : GoString
  pub type : GoString
  pub name : GoString
  pub avatar_url : GoString
  pub created_by : GoString
  pub participants : GoString
  pub last_message : GoString
  pub only_admins_can_send : Bool
  pub created_at : Time
  pub updated_at : Time

pub record Session (W : Type 0) : Type 0 where
  -- INSERT INTO messages ... IF NOT EXISTS; whether it was applied
  pub insert_message : MessageRow → Exec W Bool
  pub insert_lookup : LookupRow → Exec W (Unit {0})
  pub select_lookup : (id : GoString) → Exec W LookupRow
  pub select_message : MessageKey → Exec W MessageRow
  -- WHERE conversation_id = ? AND (created_at, id) < (?, ?) LIMIT ?
  pub select_messages_before : (conversation_id : GoString) → Cursor → ℕ → Exec W (List MessageRow)
  pub select_messages : (conversation_id : GoString) → ℕ → Exec W (List MessageRow)
  pub update_message : MessageRow → Exec W (Unit {0})
  pub update_reactions : GoString → MessageKey → Exec W (Unit {0})
  -- INSERT INTO direct_conversations ... IF NOT EXISTS
  pub insert_direct : (lookup_key conversation_id : GoString) → Exec W Bool
  pub select_direct : (lookup_key : GoString) → Exec W GoString
  pub insert_conversation : ConversationRow → Exec W (Unit {0})
  pub select_conversation : (id : GoString) → Exec W ConversationRow
  pub update_conversation : ConversationRow → Exec W (Unit {0})
  pub update_last_message : (last_message : GoString) → Time → (id : GoString) → Exec W (Unit {0})
  pub update_participants : (participants id : GoString) → Exec W (Unit {0})
  pub update_participants_at :
      (participants : GoString) → Time → (id : GoString) → Exec W (Unit {0})
  pub insert_user_conversation : (user_id conversation_id : GoString) → Exec W (Unit {0})
  pub insert_conversation_participant : (conversation_id user_id : GoString) → Exec W (Unit {0})
  pub delete_user_conversation : (user_id conversation_id : GoString) → Exec W (Unit {0})
  pub delete_conversation_participant : (conversation_id user_id : GoString) → Exec W (Unit {0})
  pub select_participants : (conversation_id : GoString) → Exec W (List GoString)
  pub select_user_conversations : (user_id : GoString) → Exec W (List GoString)
