-- ===== src/Adapter/Repository/ConversationRepo/Rows.antt =====
-- The rows of chat.conversations (internal/adapter/repository/conversation_repo.go): what is written
-- and built again.
use be_modami_chat_service.Prelude.{◌≡◌, refl, Bool, true, List, Option, none, some}
use be_modami_chat_service.Text.{bytes}
use be_modami_chat_service.Domain.Conversation.{Conversation, Participant, LastMessage}
use be_modami_chat_service.Adapter.Repository.Codec.{Codec, IsCodec}
use be_modami_chat_service.Adapter.Repository.MessageRepo.Roundtrip.{not_empty_false, differs}
use be_modami_chat_service.Adapter.Repository.ConversationRows.{
  marshal_last_message, unmarshal_last_message, unmarshal_participants, conversation_row,
  build_conversation,
}

abbrev pub last_message_survives : (LastMessage → Bool) → Option LastMessage → Bool
last_message_survives survives none = true
last_message_survives survives (some lm) = survives lm

module _ (participants_json : Codec (List Participant))
    (participants_survive : List Participant → Bool)
    (participants_laws : IsCodec participants_json participants_survive)
    (last_message_json : Codec LastMessage) (survives : LastMessage → Bool)
    (last_message_laws : IsCodec last_message_json survives) where
  unmarshal-marshal_participants :
      (ps : List Participant)
      → participants_survive ps ≡ true
      → unmarshal_participants participants_json (participants_json.marshal ps) ≡ ps
  unfolding unmarshal_participants
  unmarshal-marshal_participants ps h =
      rw
        (
          not_empty_false (participants_json.marshal ps) (participants_laws.not_empty ps),
          differs (participants_json.marshal ps) (bytes "null") (participants_laws.not_null ps),
          participants_laws.unmarshal-marshal ps h,
        )
        refl

  unmarshal-marshal_last_message :
      (lm : Option LastMessage)
      → last_message_survives survives lm ≡ true
      → unmarshal_last_message last_message_json (marshal_last_message last_message_json lm) ≡ lm
  unfolding unmarshal_last_message marshal_last_message
  unmarshal-marshal_last_message none h = refl
  unmarshal-marshal_last_message (some lm) h =
      rw
        (
          not_empty_false (last_message_json.marshal lm) (last_message_laws.not_empty lm),
          differs (last_message_json.marshal lm) (bytes "null") (last_message_laws.not_null lm),
          last_message_laws.unmarshal-marshal lm h,
        )
        refl

  -- A conversation that is written as a row and built from it again is the same, if the codecs keep
  -- its participants and its last message.
  build-conversation_row :
      (conv : Conversation)
      → participants_survive conv.participants ≡ true
      → last_message_survives survives conv.last_message ≡ true
      → build_conversation participants_json last_message_json
          (conversation_row participants_json last_message_json conv)
        ≡ conv
  unfolding build_conversation conversation_row
  build-conversation_row conv hp hl i = record conv {
    participants = unmarshal-marshal_participants conv.participants hp i;
    last_message = unmarshal-marshal_last_message conv.last_message hl i;
  }
