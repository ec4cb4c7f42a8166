-- ===== src/Adapter/Handler/Chat.antt =====
-- The handlers and the routes of internal/adapter/handler/chat_handler.go.
pub mod Outcomes
pub mod Members
pub mod Walk
pub mod Pages
use be_modami_chat_service.Prelude.{String, List, [], ◌∷◌, Option, none, some}
use be_modami_chat_service.Prelude.Int.{ℤ}
use be_modami_chat_service.Text.{GoString}
use be_modami_chat_service.Result.{Result, ok, err}
use be_modami_chat_service.Exec.{Exec}
use be_modami_chat_service.Domain.Message.{Message}
use be_modami_chat_service.Domain.Conversation.{Conversation}
use be_modami_chat_service.Service.Defs.{ChatService}
use be_modami_chat_service.Service.SendMessage.{SendMessageCommand, send_message as send}
use be_modami_chat_service.Service.CreateConversation.{
  create_direct_chat as open_direct_chat, create_group as open_group, add_participant_by,
  remove_participant_by,
}
use be_modami_chat_service.Service.ChatService.{
  get_messages as page_of_messages, get_conversations, get_conversation as conversation_of,
  mark_as_read as mark, edit_message as edit, delete_message as delete, add_reaction_by,
  remove_reaction_by, handle_typing as typing_of, get_unread_counts as unread_counts_of,
}
use be_modami_chat_service.Adapter.Handler.Errors.{Answer, handle_error}
use be_modami_chat_service.Adapter.Handler.Paging.{TimeText}
use be_modami_chat_service.Adapter.Handler.Requests.{
  SendMessageRequest, CreateDirectChatRequest, CreateGroupRequest, MarkAsReadRequest, TypingRequest,
  AddParticipantRequest, AddReactionRequest, EditMessageRequest, HttpRequest, CursorPagedData,
  parse_page_request, paged_data, command_of,
}

-- What a handler puts into a response.
pub data Body : Type 0 where
  conversation : Conversation → Body
  message : Message → Body
  conversations : CursorPagedData Conversation → Body
  messages : CursorPagedData Message → Body
  counts : List (GoString × ℤ) → Body

-- response.OK, Created, NoContent and BadRequest, and what handleError writes.
pub data Reply : Type 0 where
  ok_with created : Body → Reply
  no_content : Reply
  bad_request : String → Reply
  failed : Answer → Reply

abbrev pub reply_by : {A : Type 0} → (A → Reply) → Result A → Reply
reply_by f (ok a) = f a
reply_by f (err e) = failed (handle_error e)

abbrev pub respond : {W A : Type 0} → (A → Reply) → Exec W A → W → Reply × W
respond f m w = let (r, w') = m w in (reply_by f r, w')

-- A body is `none` where it does not decode.
abbrev pub with_body : {W Q : Type 0} → Option Q → (Q → W → Reply × W) → W → Reply × W
with_body none f w = (bad_request "invalid request body", w)
with_body (some req) f w = f req w

module _ {W : Type 0} (s : ChatService W) (rfc3339_nano : TimeText) where
  unfoldable pub list_conversations : HttpRequest → W → Reply × W
  list_conversations r =
      respond (λ result. ok_with (conversations (paged_data rfc3339_nano result)))
        (get_conversations s r.user_id (parse_page_request rfc3339_nano r))

  unfoldable pub get_conversation : HttpRequest → W → Reply × W
  get_conversation r =
      respond (λ conv. ok_with (conversation conv))
        (conversation_of s (r.url_param "conversationID") r.user_id)

  unfoldable pub create_direct_chat : HttpRequest → Option CreateDirectChatRequest → W → Reply × W
  create_direct_chat r body = with_body body (λ req.
      respond (λ conv. created (conversation conv))
        (open_direct_chat s (record { user_id1 = r.user_id; user_id2 = req.user_id })))

  unfoldable pub create_group : HttpRequest → Option CreateGroupRequest → W → Reply × W
  create_group r body = with_body body (λ req.
      respond (λ conv. created (conversation conv))
        (open_group s
          (record { name = req.name; created_by = r.user_id; member_ids = req.member_ids })))

  unfoldable pub get_messages : HttpRequest → W → Reply × W
  get_messages r =
      respond (λ result. ok_with (messages (paged_data rfc3339_nano result)))
        (page_of_messages s (r.url_param "conversationID") r.user_id
          (parse_page_request rfc3339_nano r))

  unfoldable pub send_message : HttpRequest → Option SendMessageRequest → W → Reply × W
  send_message r body = with_body body (λ req.
      respond (λ msg. created (message msg))
        (send s (command_of (r.url_param "conversationID") r.user_id req)))

  unfoldable pub mark_as_read : HttpRequest → Option MarkAsReadRequest → W → Reply × W
  mark_as_read r body = with_body body (λ req.
      respond (λ _. no_content) (mark s (r.url_param "conversationID") r.user_id req.message_id))

  unfoldable pub handle_typing : HttpRequest → Option TypingRequest → W → Reply × W
  handle_typing r body = with_body body (λ req.
      respond (λ _. no_content) (typing_of s (r.url_param "conversationID") r.user_id req.typing))

  unfoldable pub add_participant : HttpRequest → Option AddParticipantRequest → W → Reply × W
  add_participant r body = with_body body (λ req.
      respond (λ _. no_content)
        (add_participant_by s (r.url_param "conversationID") r.user_id req.user_id))

  unfoldable pub remove_participant : HttpRequest → W → Reply × W
  remove_participant r =
      respond (λ _. no_content)
        (remove_participant_by s (r.url_param "conversationID") r.user_id (r.url_param "userID"))

  unfoldable pub edit_message : HttpRequest → Option EditMessageRequest → W → Reply × W
  edit_message r body = with_body body (λ req.
      respond (λ msg. ok_with (message msg)) (edit s (r.url_param "messageID") r.user_id req.text))

  unfoldable pub delete_message : HttpRequest → W → Reply × W
  delete_message r = respond (λ _. no_content) (delete s (r.url_param "messageID") r.user_id)

  unfoldable pub add_reaction : HttpRequest → Option AddReactionRequest → W → Reply × W
  add_reaction r body = with_body body (λ req.
      respond (λ _. no_content) (add_reaction_by s (r.url_param "messageID") r.user_id req.emoji))

  unfoldable pub remove_reaction : HttpRequest → W → Reply × W
  remove_reaction r =
      respond (λ _. no_content)
        (remove_reaction_by s (r.url_param "messageID") r.user_id (r.url_param "emoji"))

  unfoldable pub get_unread_counts : HttpRequest → W → Reply × W
  get_unread_counts r = respond (λ cs. ok_with (counts cs)) (unread_counts_of s r.user_id)

-- The handlers, each with the body that it reads.
pub data Endpoint : Type 0 where
  list_conversations_at : Endpoint
  get_conversation_at : Endpoint
  create_direct_chat_at : Option CreateDirectChatRequest → Endpoint
  create_group_at : Option CreateGroupRequest → Endpoint
  get_messages_at : Endpoint
  send_message_at : Option SendMessageRequest → Endpoint
  mark_as_read_at : Option MarkAsReadRequest → Endpoint
  handle_typing_at : Option TypingRequest → Endpoint
  add_participant_at : Option AddParticipantRequest → Endpoint
  remove_participant_at : Endpoint
  edit_message_at : Option EditMessageRequest → Endpoint
  delete_message_at : Endpoint
  add_reaction_at : Option AddReactionRequest → Endpoint
  remove_reaction_at : Endpoint
  get_unread_counts_at : Endpoint

unfoldable pub serve :
    {W : Type 0} → ChatService W → TimeText → Endpoint → HttpRequest → W → Reply × W
serve s t list_conversations_at r = list_conversations s t r
serve s t get_conversation_at r = get_conversation s t r
serve s t (create_direct_chat_at body) r = create_direct_chat s t r body
serve s t (create_group_at body) r = create_group s t r body
serve s t get_messages_at r = get_messages s t r
serve s t (send_message_at body) r = send_message s t r body
serve s t (mark_as_read_at body) r = mark_as_read s t r body
serve s t (handle_typing_at body) r = handle_typing s t r body
serve s t (add_participant_at body) r = add_participant s t r body
serve s t remove_participant_at r = remove_participant s t r
serve s t (edit_message_at body) r = edit_message s t r body
serve s t delete_message_at r = delete_message s t r
serve s t (add_reaction_at body) r = add_reaction s t r body
serve s t remove_reaction_at r = remove_reaction s t r
serve s t get_unread_counts_at r = get_unread_counts s t r
