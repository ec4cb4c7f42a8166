-- ===== src/Service/SendMessage.antt =====
-- internal/service/send_message.go
pub mod Endings
pub mod Broadcast
use be_modami_chat_service.Prelude.{
  ℕ, not, ◌&&◌, false, List, [], ◌∷◌, Option, leb, if◌then◌else◌, length, take,
}
use be_modami_chat_service.Text.{GoString, ◌==◌}
use be_modami_chat_service.Exec.{Exec, pure, lift, total, wrap, best_effort, require, ◌>>=◌, ◌>>◌}
use be_modami_chat_service.Result.{rate_limited, not_chat_member, forbidden}
use be_modami_chat_service.Port.{whole}
use be_modami_chat_service.Domain.Message.{
  Message, MessageType, MessageContent, MediaInfo, ReplyInfo, ForwardInfo, validate,
}
use be_modami_chat_service.Domain.Conversation.{
  Conversation, LastMessage, has_member, is_admin, participant_ids,
}
use be_modami_chat_service.Service.Defs.{ChatService}

pub record SendMessageCommand : Type 0 where
  pub conversation_id : GoString
  pub sender_id : GoString
  pub type : MessageType
  pub content : MessageContent
  pub media : Option MediaInfo
  pub reply_to : Option ReplyInfo
  pub forwarded_from : Option ForwardInfo

unfoldable pub truncate : GoString → ℕ → GoString
truncate s max_len = if leb (length s) max_len then s else take max_len s

-- The message that SendMessage builds; CreatedAt is Go's zero time.
abbrev pub built : SendMessageCommand → GoString → Message
built cmd id = record {
  id = id;
  conversation_id = cmd.conversation_id;
  sender_id = cmd.sender_id;
  type = cmd.type;
  content = cmd.content;
  media = cmd.media;
  reply_to = cmd.reply_to;
  forwarded_from = cmd.forwarded_from;
  reactions = [];
  edited = false;
  deleted = false;
  created_at = 0;
}

abbrev pub last_message_of : Message → LastMessage
last_message_of msg = record {
  message_id = msg.id;
  sender_id = msg.sender_id;
  content_preview = truncate msg.content.text 100;
  type = msg.type;
  sent_at = msg.created_at;
}

module _ {W : Type 0} (s : ChatService W) where
  -- The loop over the participants.
  unfoldable pub increment_others :
      (sender_id conversation_id : GoString) → List GoString → Exec W (Unit {0})
  increment_others sender_id conversation_id [] = pure tt
  increment_others sender_id conversation_id (pid ∷ pids) =
      let rest = increment_others sender_id conversation_id pids in
      if pid == sender_id
      then rest
      else best_effort (s.cache.increment_unread pid conversation_id) >> rest

  -- From the construction of the message on.
  unfoldable pub after_checks : SendMessageCommand → Conversation → Exec W Message
  after_checks cmd conv = do
    id ← total s.id_gen.new_id
    lift (validate (built cmd id))
    msg ← wrap "save message" (s.msg_repo.create (built cmd id))
    best_effort (s.conv_repo.update_last_message cmd.conversation_id (last_message_of msg))
    best_effort (s.publisher.publish_message_sent msg)
    best_effort (s.realtime.publish_to_conversation cmd.conversation_id "message.new" (whole msg))
    increment_others cmd.sender_id cmd.conversation_id (participant_ids conv)
    pure msg

  unfoldable pub send_message : SendMessageCommand → Exec W Message
  send_message cmd = do
    allowed ← wrap "rate limit check" (s.rate_limiter.allow_message cmd.sender_id)
    require allowed rate_limited
    conv ← wrap "find conversation" (s.conv_repo.find_by_id cmd.conversation_id)
    require (has_member conv cmd.sender_id) not_chat_member
    require (not (conv.settings.only_admins_can_send && not (is_admin conv cmd.sender_id)))
        forbidden
    after_checks cmd conv
