-- ===== src/Service/ChatService.antt =====
-- internal/service/chat_service.go
pub mod Changes
pub mod Access
use be_modami_chat_service.Prelude.{
  ℕ, not, Bool, true, false, List, [], ◌∷◌, none, ltb, if◌then◌else◌, length,
}
use be_modami_chat_service.Prelude.Int.{ℤ}
use be_modami_chat_service.Text.{GoString, ◌==◌}
use be_modami_chat_service.Exec.{
  Exec, pure, raise, lift, total, wrap, best_effort, require, ◌>>=◌, ◌>>◌,
}
use be_modami_chat_service.Result.{
  Result, ok, err, Error, errors_is, wrapped, validation, sentinel, not_found, not_chat_member,
  forbidden, message_deleted, reaction_limit_reached,
}
use be_modami_chat_service.Port.{text, flag, whole, fields}
use be_modami_chat_service.Domain.Cursor.{PageRequest, PageResponse, normalize_limit}
use be_modami_chat_service.Domain.Message.{
  Message, message_type_text, max_message_content_length, empty_content,
}
use be_modami_chat_service.Domain.Conversation.{Conversation, has_member}
use be_modami_chat_service.Service.Defs.{ChatService}

-- What AddReaction makes of the repository's answer.
abbrev pub reaction_result : Result (Unit {0}) → Result (Unit {0})
reaction_result (ok a) = ok a
reaction_result (err e) =
    if errors_is e reaction_limit_reached then err e else err (wrapped "add reaction" e)

abbrev pub edited_message : Message → GoString → Message
edited_message msg new_text = record msg {
  content = record (msg.content) { text = new_text };
  edited = true;
}

-- The checks of EditMessage on the message that it found.
unfoldable pub check_edit : Message → (user_id new_text : GoString) → Result (Unit {0})
check_edit msg user_id new_text =
    if not (msg.sender_id == user_id)
    then err (sentinel forbidden)
    else if msg.deleted
    then err (sentinel message_deleted)
    else if not (msg.type == message_type_text)
    then err (validation "only text messages can be edited")
    else if ltb max_message_content_length (length new_text)
    then err (validation "message content exceeds maximum length")
    else ok tt

abbrev pub deleted_message : Message → Message
deleted_message msg = record msg { deleted = true; content = empty_content; media = none }

module _ {W : Type 0} (s : ChatService W) where
  unfoldable pub get_messages :
      (conversation_id user_id : GoString) → PageRequest → Exec W (PageResponse Message)
  get_messages conversation_id user_id page = do
    conv ← wrap "find conversation" (s.conv_repo.find_by_id conversation_id)
    require (has_member conv user_id) not_chat_member
    s.msg_repo.find_by_conversation conversation_id
        (record page { limit = normalize_limit page.limit })

  unfoldable pub get_conversations :
      (user_id : GoString) → PageRequest → Exec W (PageResponse Conversation)
  get_conversations user_id page =
      s.conv_repo.find_by_user user_id (record page { limit = normalize_limit page.limit })

  unfoldable pub get_conversation : (conversation_id user_id : GoString) → Exec W Conversation
  get_conversation conversation_id user_id = do
    conv ← wrap "find conversation" (s.conv_repo.find_by_id conversation_id)
    require (has_member conv user_id) not_chat_member
    pure conv

  unfoldable pub mark_as_read : (conversation_id user_id message_id : GoString) → Exec W (Unit {0})
  mark_as_read conversation_id user_id message_id = do
    conv ← wrap "find conversation" (s.conv_repo.find_by_id conversation_id)
    require (has_member conv user_id) not_chat_member
    msg ← wrap "find message" (s.msg_repo.find_by_id message_id)
    require (msg.conversation_id == conversation_id) not_found
    now ← total s.now
    wrap "update read cursor"
        (s.conv_repo.update_read_cursor conversation_id user_id message_id now)
    best_effort (s.cache.clear_unread user_id conversation_id)
    best_effort (s.publisher.publish_read_receipt conversation_id user_id message_id)
    best_effort (
        s.realtime.publish_to_conversation conversation_id "read_receipt"
          (fields (("user_id", text user_id) ∷ ("message_id", text message_id) ∷ [])))

  unfoldable pub edit_message : (message_id user_id new_text : GoString) → Exec W Message
  unfolding check_edit
  edit_message message_id user_id new_text = do
    msg ← wrap "find message" (s.msg_repo.find_by_id message_id)
    lift (check_edit msg user_id new_text)
    let msg' = edited_message msg new_text
    wrap "update message" (s.msg_repo.update msg')
    best_effort (s.publisher.publish_message_updated msg')
    best_effort
        (s.realtime.publish_to_conversation msg'.conversation_id "message.updated" (whole msg'))
    pure msg'

  unfoldable pub delete_message : (message_id user_id : GoString) → Exec W (Unit {0})
  delete_message message_id user_id = do
    msg ← wrap "find message" (s.msg_repo.find_by_id message_id)
    require (msg.sender_id == user_id) forbidden
    let msg' = deleted_message msg
    wrap "delete message" (s.msg_repo.update msg')
    best_effort (s.publisher.publish_message_deleted msg'.conversation_id msg'.id user_id)
    best_effort (
        s.realtime.publish_to_conversation msg'.conversation_id "message.deleted" (
          fields
            (("message_id", text msg'.id) ∷ ("conversation_id", text msg'.conversation_id) ∷ [])))

  unfoldable pub add_reaction_by : (message_id user_id emoji : GoString) → Exec W (Unit {0})
  add_reaction_by message_id user_id emoji = do
    msg ← wrap "find message" (s.msg_repo.find_by_id message_id)
    conv ← wrap "find conversation" (s.conv_repo.find_by_id msg.conversation_id)
    require (has_member conv user_id) not_chat_member
    (λ w.
        let (r, w') = s.msg_repo.add_reaction message_id emoji user_id w in (reaction_result r, w'))
    best_effort (s.publisher.publish_reaction_added msg.conversation_id message_id emoji user_id)
    best_effort (
        s.realtime.publish_to_conversation msg.conversation_id "reaction.added" (
          fields (
            ("message_id", text message_id)
            ∷ ("user_id", text user_id)
            ∷ ("emoji", text emoji)
            ∷ [])))

  unfoldable pub remove_reaction_by : (message_id user_id emoji : GoString) → Exec W (Unit {0})
  remove_reaction_by message_id user_id emoji = do
    msg ← wrap "find message" (s.msg_repo.find_by_id message_id)
    wrap "remove reaction" (s.msg_repo.remove_reaction message_id emoji user_id)
    best_effort (s.publisher.publish_reaction_removed msg.conversation_id message_id emoji user_id)
    best_effort (
        s.realtime.publish_to_conversation msg.conversation_id "reaction.removed" (
          fields (
            ("message_id", text message_id)
            ∷ ("user_id", text user_id)
            ∷ ("emoji", text emoji)
            ∷ [])))

  unfoldable pub handle_typing : (conversation_id user_id : GoString) → Bool → Exec W (Unit {0})
  handle_typing conversation_id user_id typing = do
    conv ← wrap "find conversation" (s.conv_repo.find_by_id conversation_id)
    require (has_member conv user_id) not_chat_member
    (if typing
        then wrap "set typing" (s.presence.set_typing conversation_id user_id)
        else wrap "clear typing" (s.presence.clear_typing conversation_id user_id))
    s.realtime.publish_to_conversation conversation_id "typing"
        (fields (("user_id", text user_id) ∷ ("typing", flag typing) ∷ []))

  unfoldable pub get_unread_counts : (user_id : GoString) → Exec W (List (GoString × ℤ))
  get_unread_counts user_id = s.cache.get_unread_counts user_id
