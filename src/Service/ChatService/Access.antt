-- ===== src/Service/ChatService/Access.antt =====
-- What only the members of a conversation can do: read it, mark it as read, react in it, type in it.
use be_modami_chat_service.Prelude.{
  ◌≡◌, refl, Bool, true, false, [], ◌∷◌, any, Bool-cases, inl, inr,
}
use be_modami_chat_service.Text.{GoString, ◌==◌}
use be_modami_chat_service.Text.Laws.{eq_iff}
use be_modami_chat_service.Exec.{run-cases}
use be_modami_chat_service.Result.{
  ok, err, not_chat_member, sentinel, errors_is, reaction_limit_reached,
}
use be_modami_chat_service.Domain.Message.{Message}
use be_modami_chat_service.Domain.Conversation.{has_member, Conversation}
use be_modami_chat_service.Domain.Cursor.{PageRequest}
use be_modami_chat_service.Port.{fields, text}
use be_modami_chat_service.Service.Defs.{ChatService}
use be_modami_chat_service.Service.Rules.{Ends, entry}
use be_modami_chat_service.Service.Traced
use be_modami_chat_service.Service.Traced.{
  Call, Entry, Traced, traced, is_broadcast, is_persisted, is_increment, is_unread, persists_first,
  Untouched, Did, Tried,
}
use be_modami_chat_service.Service.ChatService.{
  get_messages, get_conversation, mark_as_read, add_reaction_by, remove_reaction_by, handle_typing,
}

module _ {W : Type 0} (s : ChatService W) where
  -- MarkAsRead, where the conversation and the message are found: it succeeds only for a member and
  -- a message of that conversation, after storing the read cursor at the time of the clock; then it
  -- tries to clear the user's unread count and to tell Kafka and the conversation of the receipt. If it
  -- returns an error, no write was tried but by its very last call, which failed, nothing was
  -- broadcast, and the unread count was not cleared.
  pub mark_as_read_ends :
      (conversation_id user_id message_id : GoString) (w w₁ w₂ : W) (conv : Conversation)
      (msg : Message)
      → s.conv_repo.find_by_id conversation_id w ≡ (ok conv, w₁)
      → s.msg_repo.find_by_id message_id w₁ ≡ (ok msg, w₂)
      → Ends
          (λ u (w', t).
            (has_member conv user_id ≡ true)
            × (msg.conversation_id ≡ conversation_id)
            × (persists_first t ≡ true)
            × Did (Traced.update_read_cursor conversation_id user_id message_id (s.now w₂).0) t
            × Tried (Traced.clear_unread user_id conversation_id) t
            × Tried (Traced.kafka (Traced.read_receipt conversation_id user_id message_id)) t
            × Tried
                (Traced.realtime conversation_id "read_receipt"
                  (fields (("user_id", text user_id) ∷ ("message_id", text message_id) ∷ [])))
                t)
          (λ e (w', t). Untouched t × (any is_unread t ≡ false))
          (mark_as_read (traced s) conversation_id user_id message_id (w, []))
  unfolding mark_as_read
  mark_as_read_ends conversation_id user_id message_id w w₁ w₂ conv msg found found' =
      rw found (elim (Bool-cases (has_member conv user_id)) [
        | inr outsider ↦ rw outsider ((refl, refl), refl)
        | inl member ↦ rw member (
            rw found' (elim (Bool-cases (msg.conversation_id == conversation_id)) [
              | inr elsewhere ↦ rw elsewhere ((refl, refl), refl)
              | inl here ↦
                  rw here
                    (elim (run-cases (
                      s.conv_repo.update_read_cursor conversation_id user_id message_id (s.now w₂).0
                        (s.now w₂).1)) [
                          | inr (e, w₃, failed) ↦ rw failed ((refl, refl), refl)
                          | inl (u, w₃, stored) ↦ rw stored (
                            refl,
                            (eq_iff msg.conversation_id conversation_id).0 here,
                            refl,
                            inr (inr (inr (inl refl))),
                            inr (inr (inl refl)),
                            inr (inl refl),
                            inl refl,
                          )
                        ])
            ]))
      ])

  -- AddReaction, where the message and its conversation are found: it succeeds only for a member of
  -- the conversation, after the repository has stored the reaction, and then tries to tell Kafka and the
  -- conversation of it. If it returns an error, no write was tried but by its very last call, which
  -- failed, and nothing was broadcast.
  pub add_reaction_ends :
      (message_id user_id emoji : GoString) (w w₁ w₂ : W) (conv : Conversation) (msg : Message)
      → s.msg_repo.find_by_id message_id w ≡ (ok msg, w₁)
      → s.conv_repo.find_by_id msg.conversation_id w₁ ≡ (ok conv, w₂)
      → Ends
          (λ u (w', t).
            (has_member conv user_id ≡ true)
            × (persists_first t ≡ true)
            × Did (Traced.add_reaction message_id emoji user_id) t
            × Tried
                (Traced.kafka (Traced.reaction_added msg.conversation_id message_id emoji user_id))
                t
            × Tried
                (Traced.realtime msg.conversation_id "reaction.added" (
                  fields (
                    ("message_id", text message_id)
                    ∷ ("user_id", text user_id)
                    ∷ ("emoji", text emoji)
                    ∷ [])))
                t)
          (λ e (w', t). Untouched t)
          (add_reaction_by (traced s) message_id user_id emoji (w, []))
  unfolding add_reaction_by
  add_reaction_ends message_id user_id emoji w w₁ w₂ conv msg found found' = rw found (
      rw found' (elim (Bool-cases (has_member conv user_id)) [
        | inr outsider ↦ rw outsider (refl, refl)
        | inl member ↦
            rw member (elim (run-cases (s.msg_repo.add_reaction message_id emoji user_id w₂)) [
              | inr (e, w₃, failed) ↦
                  rw failed (elim (Bool-cases (errors_is e reaction_limit_reached)) [
                    | inl limit ↦ rw limit (refl, refl)
                    | inr other ↦ rw other (refl, refl)
                  ])
              | inl (u, w₃, stored) ↦
                  rw stored (refl, refl, inr (inr (inl refl)), inr (inl refl), inl refl)
            ])
      ]))

  -- RemoveReaction never asks whether the user is a member: where the message is found, and the
  -- repository answers without an error, it succeeds and tells Kafka, whoever the user is.
  remove_reaction_by_anybody :
      (message_id user_id emoji : GoString) (w w₁ w₂ : W) (msg : Message)
      → s.msg_repo.find_by_id message_id w ≡ (ok msg, w₁)
      → s.msg_repo.remove_reaction message_id emoji user_id w₁ ≡ (ok tt, w₂)
      → ((remove_reaction_by (traced s) message_id user_id emoji (w, [])).0 ≡ ok tt)
        × Tried
            (Traced.kafka (Traced.reaction_removed msg.conversation_id message_id emoji user_id))
            (remove_reaction_by (traced s) message_id user_id emoji (w, [])).1.1
  unfolding remove_reaction_by
  remove_reaction_by_anybody message_id user_id emoji w w₁ w₂ msg found removed =
      rw found (rw removed (refl, inr (inl refl)))

  -- What an outsider gets: whatever the conversation, a user who is no member of it reads neither it
  -- nor its messages, and does not type in it; each call ends with ErrNotChatMember right after the
  -- conversation was read, and nothing was written or broadcast.
  pub outsider_gets_nothing :
      (conversation_id user_id : GoString) (page : PageRequest) (typing : Bool) (w w₁ : W)
      (conv : Conversation)
      → s.conv_repo.find_by_id conversation_id w ≡ (ok conv, w₁)
      → has_member conv user_id ≡ false
      → (get_conversation (traced s) conversation_id user_id (w, [])
          ≡ (err (sentinel not_chat_member), (w₁, entry Traced.read true ∷ [])))
        × (get_messages (traced s) conversation_id user_id page (w, [])
            ≡ (err (sentinel not_chat_member), (w₁, entry Traced.read true ∷ [])))
        × (handle_typing (traced s) conversation_id user_id typing (w, [])
            ≡ (err (sentinel not_chat_member), (w₁, entry Traced.read true ∷ [])))
  unfolding get_conversation get_messages handle_typing
  outsider_gets_nothing conversation_id user_id page typing w w₁ conv found outsider =
      rw found (rw outsider (refl, refl, refl))
