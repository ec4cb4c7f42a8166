-- ===== src/Adapter/Handler/Chat/Members.antt =====
-- What an outsider is told: the handlers, the use cases and handleError together.
use be_modami_chat_service.Prelude.{
  ◌≡◌, refl, true, false, List, [], ◌∷◌, some, if◌then◌else◌, any, arith, Bool-cases, inl, inr,
}
use be_modami_chat_service.Text.{GoString, ◌==◌}
use be_modami_chat_service.Result.{
  ok, err, sentinel, not_chat_member, forbidden, errors_is, is_validation_error,
}
use be_modami_chat_service.Domain.Conversation.{
  Conversation, Participant, is_user, is_admin_user, has_member, is_admin,
}
use be_modami_chat_service.Service.Defs.{ChatService}
use be_modami_chat_service.Service.Traced.{Traced, traced}
use be_modami_chat_service.Service.Traced
use be_modami_chat_service.Service.Rules.{entry}
use be_modami_chat_service.Service.SendMessage.{SendMessageCommand, send_message}
use be_modami_chat_service.Service.CreateConversation.{add_participant_by, remove_participant_by}
use be_modami_chat_service.Service.ChatService.{mark_as_read}
use be_modami_chat_service.Service.ChatService.Access.{outsider_gets_nothing}
use be_modami_chat_service.Adapter.Handler.Errors.{answer, handle_error, answer_by, code_forbidden}
use be_modami_chat_service.Adapter.Handler.Paging.{TimeText}
use be_modami_chat_service.Adapter.Handler.Requests.{
  HttpRequest, TypingRequest, MarkAsReadRequest, SendMessageRequest, AddParticipantRequest,
  parse_page_request, command_of,
}
use be_modami_chat_service.Adapter.Handler.Chat
use be_modami_chat_service.Adapter.Handler.Chat.{Reply, failed, no_content, respond, serve}

outsider_is_no_admin :
    (conv : Conversation) (u : GoString) → has_member conv u ≡ false → is_admin conv u ≡ false
unfolding has_member is_admin
outsider_is_no_admin conv u = among conv.participants
  where
    among : (ps : List Participant) → any (is_user u) ps ≡ false → any (is_admin_user u) ps ≡ false
    among [] outsider = refl
    among (p ∷ ps) outsider = ground (arith, among ps)

abbrev pub not_a_member : Reply
not_a_member = failed (answer code_forbidden "not a member of this chat")

not_chat_member_answer :
    handle_error (sentinel not_chat_member) ≡ answer code_forbidden "not a member of this chat"
unfolding handle_error answer_by errors_is is_validation_error
not_chat_member_answer = refl

abbrev pub is_refused : Reply
is_refused = failed (answer code_forbidden "forbidden")

forbidden_answer : handle_error (sentinel forbidden) ≡ answer code_forbidden "forbidden"
unfolding handle_error answer_by errors_is is_validation_error
forbidden_answer = refl

module _ {W : Type 0} (s : ChatService W) (t : TimeText) where
  mark_as_read_outsider :
      (c u m : GoString) (w w₁ : W) (conv : Conversation)
      → s.conv_repo.find_by_id c w ≡ (ok conv, w₁)
      → has_member conv u ≡ false
      → mark_as_read (traced s) c u m (w, [])
        ≡ (err (sentinel not_chat_member), (w₁, entry Traced.read true ∷ []))
  unfolding mark_as_read
  mark_as_read_outsider c u m w w₁ conv found outsider = rw found (rw outsider refl)

  sending_outsider :
      (cmd : SendMessageCommand) (v v₁ v₂ : W) (conv : Conversation)
      → s.rate_limiter.allow_message cmd.sender_id v ≡ (ok true, v₁)
      → s.conv_repo.find_by_id cmd.conversation_id v₁ ≡ (ok conv, v₂)
      → has_member conv cmd.sender_id ≡ false
      → send_message (traced s) cmd (v, []) ≡ (
        err (sentinel not_chat_member),
        (v₂, entry Traced.read true ∷ entry (Traced.allow_message cmd.sender_id) true ∷ []),
      )
  unfolding send_message
  sending_outsider cmd v v₁ v₂ conv allowed found outsider =
      rw allowed (rw found (rw outsider refl))

  roster_outsider :
      (c u other : GoString) (w w₁ : W) (conv : Conversation)
      → s.conv_repo.find_by_id c w ≡ (ok conv, w₁)
      → has_member conv u ≡ false
      → (add_participant_by (traced s) c u other (w, [])
          ≡ (err (sentinel forbidden), (w₁, entry Traced.read true ∷ [])))
        × (remove_participant_by (traced s) c u other (w, []) ≡ (
            let go =
              (traced s).conv_repo.remove_participant c other (w₁, entry Traced.read true ∷ []) in
            if u == other
            then go
            else (err (sentinel forbidden), (w₁, entry Traced.read true ∷ []))))
  unfolding add_participant_by remove_participant_by
  roster_outsider c u other w w₁ conv found outsider = rw found (
      rw (outsider_is_no_admin conv u outsider) (
        refl,
        elim (Bool-cases (u == other)) [
          | inl same ↦ rw same refl
          | inr different ↦ rw different refl
        ],
      ))

  -- Whoever asks about a conversation that is found, and is no member of it, is answered 403 "not a
  -- member of this chat" for the conversation, for its messages, for marking it as read and for
  -- typing in it; the one call that was made is the one that read the conversation. For a message to
  -- it, where the rate limiter, which is asked first, lets the user send, the answer is the same after
  -- these two calls. For adding a participant and for removing another user it is 403 "forbidden", and
  -- the conversation was read alone. Only the removal of the one who asks is not refused: the
  -- repository is told to remove a user who is no member, and the answer is that of its call.
  pub outsider_is_forbidden :
      (r : HttpRequest) (typing : TypingRequest) (mark : MarkAsReadRequest)
      (post : SendMessageRequest) (add : AddParticipantRequest) (v v₁ v₂ w w₁ : W)
      (conv : Conversation)
      → s.rate_limiter.allow_message r.user_id v ≡ (ok true, v₁)
      → s.conv_repo.find_by_id (r.url_param "conversationID") v₁ ≡ (ok conv, v₂)
      → s.conv_repo.find_by_id (r.url_param "conversationID") w ≡ (ok conv, w₁)
      → has_member conv r.user_id ≡ false
      → let refusal : Reply × Traced W = (not_a_member, (w₁, entry Traced.read true ∷ [])) in
        (serve (traced s) t Chat.get_conversation_at r (w, []) ≡ refusal)
        × (serve (traced s) t Chat.get_messages_at r (w, []) ≡ refusal)
        × (serve (traced s) t (Chat.mark_as_read_at (some mark)) r (w, []) ≡ refusal)
        × (serve (traced s) t (Chat.handle_typing_at (some typing)) r (w, []) ≡ refusal)
        × (serve (traced s) t (Chat.send_message_at (some post)) r (v, []) ≡ (
          not_a_member,
          (v₂, entry Traced.read true ∷ entry (Traced.allow_message r.user_id) true ∷ []),
        ))
        × (serve (traced s) t (Chat.add_participant_at (some add)) r (w, [])
            ≡ (is_refused, (w₁, entry Traced.read true ∷ [])))
        × (serve (traced s) t Chat.remove_participant_at r (w, []) ≡ (
            let removed =
              respond
                (λ _. no_content)
                ((traced s).conv_repo.remove_participant
                  (r.url_param "conversationID")
                  (r.url_param "userID"))
                (w₁, entry Traced.read true ∷ []) in
            if r.user_id == r.url_param "userID"
            then removed
            else (is_refused, (w₁, entry Traced.read true ∷ []))))
  unfolding serve Chat.get_conversation Chat.get_messages Chat.mark_as_read Chat.handle_typing
      Chat.send_message Chat.add_participant Chat.remove_participant command_of
  outsider_is_forbidden r typing mark post add v v₁ v₂ w w₁ conv allowed found' found outsider =
      let c = r.url_param "conversationID" in
      let (a, b, d) =
        outsider_gets_nothing s c r.user_id (parse_page_request t r) typing.typing w w₁ conv found
          outsider in
      let e = mark_as_read_outsider c r.user_id mark.message_id w w₁ conv found outsider in
      let f = sending_outsider (command_of c r.user_id post) v v₁ v₂ conv allowed found' outsider in
      let g = (roster_outsider c r.user_id add.user_id w w₁ conv found outsider).0 in
      let h = (roster_outsider c r.user_id (r.url_param "userID") w w₁ conv found outsider).1 in
      rw (a, b, d, e, f, g, h)
        (rw (not_chat_member_answer, forbidden_answer)
          (
            refl,
            refl,
            refl,
            refl,
            refl,
            refl,
            elim (Bool-cases (r.user_id == r.url_param "userID")) [
              | inl same ↦ rw same refl
              | inr different ↦ rw different (rw forbidden_answer refl)
            ],
          ))
