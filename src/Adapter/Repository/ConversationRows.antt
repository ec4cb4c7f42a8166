-- ===== src/Adapter/Repository/ConversationRows.antt =====
-- The rows of chat.conversations (internal/adapter/repository/conversation_repo.go): the columns that a
-- conversation is written to and built from. The conversions between the domain's structs and those of
-- the same fields with JSON tags are identities.
use be_modami_chat_service.Prelude.{◌||◌, List, [], Option, none, some, if◌then◌else◌}
use be_modami_chat_service.Text.{GoString, bytes, ◌==◌, is_empty}
use be_modami_chat_service.Result.{Result, ok, err}
use be_modami_chat_service.Domain.Conversation.{Conversation, Participant, LastMessage}
use be_modami_chat_service.Adapter.Repository.Session.{ConversationRow}
use be_modami_chat_service.Adapter.Repository.Codec.{Codec}

abbrev pub items_or_empty : {A : Type 0} → Result (List A) → List A
items_or_empty (ok items) = items
items_or_empty (err e) = []

abbrev pub item_or_nil : {A : Type 0} → Result A → Option A
item_or_nil (ok item) = some item
item_or_nil (err e) = none

module _ (json : Codec (List Participant)) where
  abbrev pub marshal_participants : List Participant → GoString
  marshal_participants participants = json.marshal participants

  unfoldable pub unmarshal_participants : GoString → List Participant
  unmarshal_participants data' =
      if is_empty data' || data' == bytes "null" then [] else items_or_empty (json.unmarshal data')

module _ (json : Codec LastMessage) where
  unfoldable pub marshal_last_message : Option LastMessage → GoString
  marshal_last_message none = []
  marshal_last_message (some lm) = json.marshal lm

  unfoldable pub unmarshal_last_message : GoString → Option LastMessage
  unmarshal_last_message data' =
      if is_empty data' || data' == bytes "null" then none else item_or_nil (json.unmarshal data')

module _ (participants_json : Codec (List Participant))
    (last_message_json : Codec LastMessage) where
  -- The columns that Create inserts and Update sets.
  unfoldable pub conversation_row : Conversation → ConversationRow
  conversation_row conv = record {
    id = conv.id;
    type = conv.type;
    name = conv.name;
    avatar_url = conv.avatar_url;
    created_by = conv.created_by;
    participants = marshal_participants participants_json conv.participants;
    last_message = marshal_last_message last_message_json conv.last_message;
    only_admins_can_send = conv.settings.only_admins_can_send;
    created_at = conv.created_at;
    updated_at = conv.updated_at;
  }

  unfoldable pub build_conversation : ConversationRow → Conversation
  build_conversation row = record {
    id = row.id;
    type = row.type;
    name = row.name;
    avatar_url = row.avatar_url;
    created_by = row.created_by;
    participants = unmarshal_participants participants_json row.participants;
    last_message = unmarshal_last_message last_message_json row.last_message;
    settings = record { only_admins_can_send = row.only_admins_can_send };
    created_at = row.created_at;
    updated_at = row.updated_at;
  }
