-- ===== src/Port.antt =====
-- internal/port: what the service asks of its adapters, as records of calls on a world `W`.
use be_modami_chat_service.Prelude.{String, Bool, List, Time}
use be_modami_chat_service.Prelude.Int.{ℤ}
use be_modami_chat_service.Text.{GoString}
use be_modami_chat_service.Exec.{Exec}
use be_modami_chat_service.Domain.Cursor.{PageRequest, PageResponse}
use be_modami_chat_service.Domain.Message.{Message}
use be_modami_chat_service.Domain.Conversation.{Conversation, Participant, LastMessage}

-- `create` may set CreatedAt through its pointer: it returns the message as the call leaves it.
pub record MessageRepository (W : Type 0) : Type 0 where
  pub create : Message → Exec W Message
  pub find_by_id : (id : GoString) → Exec W Message
  pub find_by_conversation :
      (conversation_id : GoString) → PageRequest → Exec W (PageResponse Message)
  pub update : Message → Exec W (Unit {0})
  pub add_reaction : (message_id emoji user_id : GoString) → Exec W (Unit {0})
  pub remove_reaction : (message_id emoji user_id : GoString) → Exec W (Unit {0})

pub record ConversationRepository (W : Type 0) : Type 0 where
  pub create : Conversation → Exec W (Unit {0})
  pub find_by_id : (id : GoString) → Exec W Conversation
  pub find_by_user : (user_id : GoString) → PageRequest → Exec W (PageResponse Conversation)
  pub find_direct_chat : (user_id1 user_id2 : GoString) → Exec W Conversation
  pub update : Conversation → Exec W (Unit {0})
  pub update_last_message : (conversation_id : GoString) → LastMessage → Exec W (Unit {0})
  pub update_read_cursor :
      (conversation_id user_id message_id : GoString) → (read_at : Time) → Exec W (Unit {0})
  pub add_participant : (conversation_id : GoString) → Participant → Exec W (Unit {0})
  pub remove_participant : (conversation_id user_id : GoString) → Exec W (Unit {0})

pub record EventPublisher (W : Type 0) : Type 0 where
  pub publish_message_sent : Message → Exec W (Unit {0})
  pub publish_message_updated : Message → Exec W (Unit {0})
  pub publish_message_deleted :
      (conversation_id message_id sender_id : GoString) → Exec W (Unit {0})
  pub publish_read_receipt : (conversation_id user_id message_id : GoString) → Exec W (Unit {0})
  pub publish_reaction_added :
      (conversation_id message_id emoji user_id : GoString) → Exec W (Unit {0})
  pub publish_reaction_removed :
      (conversation_id message_id emoji user_id : GoString) → Exec W (Unit {0})

-- The values that the service passes as `data interface{}`: a message, or a map with string keys.
pub data Value : Type 0 where
  text : GoString → Value
  flag : Bool → Value

pub data EventData : Type 0 where
  whole : Message → EventData
  fields : List (String × Value) → EventData

pub record RealtimePublisher (W : Type 0) : Type 0 where
  pub publish_to_conversation :
      (conversation_id : GoString) → (event_type : String) → EventData → Exec W (Unit {0})
  pub publish_to_user : (user_id : GoString) → (event_type : String) → EventData → Exec W (Unit {0})

pub record CacheStore (W : Type 0) : Type 0 where
  pub increment_unread : (user_id conversation_id : GoString) → Exec W (Unit {0})
  pub clear_unread : (user_id conversation_id : GoString) → Exec W (Unit {0})
  pub get_unread_counts : (user_id : GoString) → Exec W (List (GoString × ℤ))

pub record PresenceStore (W : Type 0) : Type 0 where
  pub set_online : (user_id : GoString) → Exec W (Unit {0})
  pub set_offline : (user_id : GoString) → Exec W (Unit {0})
  pub is_online : (user_id : GoString) → Exec W Bool
  pub get_online_users : (user_ids : List GoString) → Exec W (List GoString)
  pub set_typing : (conversation_id user_id : GoString) → Exec W (Unit {0})
  pub clear_typing : (conversation_id user_id : GoString) → Exec W (Unit {0})

pub record RateLimiter (W : Type 0) : Type 0 where
  pub allow_message : (user_id : GoString) → Exec W Bool

pub record IdGenerator (W : Type 0) : Type 0 where
  pub new_id : W → GoString × W
