-- ===== src/Adapter/Repository/Wiring.antt =====
-- The repositories as implementations of their ports: NewMessageRepository and
-- NewConversationRepository.
use be_modami_chat_service.Prelude.{List, Time}
use be_modami_chat_service.Text.{GoString}
use be_modami_chat_service.Port.{MessageRepository, ConversationRepository}
use be_modami_chat_service.Domain.Conversation.{Participant, LastMessage}
use be_modami_chat_service.Adapter.Repository.Session.{Session}
use be_modami_chat_service.Adapter.Repository.Codec.{Codec}
use be_modami_chat_service.Adapter.Repository.MessageRows.{ReactionJson}
use be_modami_chat_service.Adapter.Repository.MessageRepo
use be_modami_chat_service.Adapter.Repository.ConversationRepo

-- encoding/json for the text columns, and the order in which a map is visited.
pub record Encoding : Type 0 where
  pub reactions : Codec (List ReactionJson)
  pub participants : Codec (List Participant)
  pub last_message : Codec LastMessage
  pub range : List GoString → List GoString

module _ {W : Type 0} (encoding : Encoding) (session : Session W) (now : W → Time × W) where
  abbrev pub new_message_repository : MessageRepository W
  new_message_repository = record {
    create = MessageRepo.create encoding.reactions session now;
    find_by_id = MessageRepo.find_by_id encoding.reactions session;
    find_by_conversation = MessageRepo.find_by_conversation encoding.reactions session;
    update = MessageRepo.update encoding.reactions session;
    add_reaction = MessageRepo.add_reaction_to encoding.reactions session;
    remove_reaction = MessageRepo.remove_reaction_from encoding.reactions session;
  }

  abbrev pub new_conversation_repository : ConversationRepository W
  new_conversation_repository =
      let p = encoding.participants in
      let l = encoding.last_message in
      record {
        create = ConversationRepo.create session p l;
        find_by_id = ConversationRepo.find_by_id session p l;
        find_by_user = ConversationRepo.find_by_user session p l;
        find_direct_chat = ConversationRepo.find_direct_chat session p l;
        update = ConversationRepo.update session p l encoding.range;
        update_last_message = ConversationRepo.update_last_message session p l;
        update_read_cursor = ConversationRepo.update_read_cursor session p l;
        add_participant = ConversationRepo.add_participant session p l now;
        remove_participant = ConversationRepo.remove_participant session p l now;
      }
