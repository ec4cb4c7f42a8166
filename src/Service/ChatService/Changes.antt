-- ===== src/Service/ChatService/Changes.antt =====
-- EditMessage and DeleteMessage: who may change a message, and what is stored and told.
use be_modami_chat_service.Prelude.{
  ◌≡◌, ◌≤◌, refl, true, false, [], ◌∷◌, none, arith, length, Bool-cases, inl, inr,
}
use be_modami_chat_service.Text.{GoString, ◌==◌}
use be_modami_chat_service.Text.Laws.{eq_iff}
use be_modami_chat_service.Exec.{run-cases}
use be_modami_chat_service.Result.{ok, is_ok, Result-cases}
use be_modami_chat_service.Port.{whole, fields, text}
use be_modami_chat_service.Domain.Message.{
  Message, validate, message_type_text, max_message_content_length,
}
use be_modami_chat_service.Service.Defs.{ChatService}
use be_modami_chat_service.Service.Rules.{Ends}
use be_modami_chat_service.Service.Traced
use be_modami_chat_service.Service.Traced.{
  Call, Entry, Traced, traced, is_broadcast, is_persisted, is_increment, is_unread, persists_first,
  Untouched, Did, Tried,
}
use be_modami_chat_service.Service.ChatService.{
  edited_message, check_edit, deleted_message, edit_message, delete_message,
}

abbrev pub May : (msg : Message) → (user_id new_text : GoString) → Type 0
May msg user_id new_text =
    (msg.sender_id ≡ user_id)
    × (msg.deleted ≡ false)
    × (msg.type ≡ message_type_text)
    × (length new_text ≤ max_message_content_length)

check_edit-May :
    (msg : Message) (u new_text : GoString) → check_edit msg u new_text ≡ ok tt → May msg u new_text
unfolding check_edit
check_edit-May msg u new_text h = (
  ground (arith, eq_iff msg.sender_id u),
  ground arith,
  ground (arith, eq_iff msg.type message_type_text),
  ground arith,
)

-- EditMessage, where the message is found: it succeeds only for the sender of a text message that is
-- not deleted and a text of at most 4096 bytes; the message that it returns, and has stored first
-- and tried to tell Kafka and the conversation then, differs from the found one in its text and its
-- edited mark alone. If it returns an error, no write was tried but by its very last call, which
-- failed, and nothing was broadcast.
pub edit_message_ends :
    {W : Type 0} (s : ChatService W) (message_id user_id new_text : GoString) (w w₁ : W)
    (msg : Message)
    → s.msg_repo.find_by_id message_id w ≡ (ok msg, w₁)
    → Ends
        (λ msg' (w', t).
          May msg user_id new_text
          × (msg'
              ≡ record msg { content = record (msg.content) { text = new_text }; edited = true })
          × (persists_first t ≡ true)
          × Did (Traced.update_message msg') t
          × Tried (Traced.kafka (Traced.message_updated msg')) t
          × Tried (Traced.realtime msg.conversation_id "message.updated" (whole msg')) t)
        (λ e (w', t). Untouched t)
        (edit_message (traced s) message_id user_id new_text (w, []))
unfolding edit_message
edit_message_ends s message_id user_id new_text w w₁ msg found =
    rw found (elim (Result-cases (check_edit msg user_id new_text)) [
      | inr (e, refused) ↦ rw refused (refl, refl)
      | inl (u, checked) ↦
          rw checked (elim (run-cases (s.msg_repo.update (edited_message msg new_text) w₁)) [
            | inr (e, w₂, failed) ↦ rw failed (refl, refl)
            | inl (u', w₂, stored) ↦ rw stored (
              check_edit-May msg user_id new_text checked,
              refl,
              refl,
              inr (inr (inl refl)),
              inr (inl refl),
              inl refl,
            )
          ])
    ])

-- DeleteMessage, where the message is found: it succeeds only for its sender, after storing the
-- message with neither text, mentions nor media and with the deleted mark, and then trying to tell
-- Kafka and the conversation. If it returns an error, no write was tried but by its very last call,
-- which failed, and nothing was broadcast.
pub delete_message_ends :
    {W : Type 0} (s : ChatService W) (message_id user_id : GoString) (w w₁ : W) (msg : Message)
    → s.msg_repo.find_by_id message_id w ≡ (ok msg, w₁)
    → Ends
        (λ u (w', t).
          (msg.sender_id ≡ user_id)
          × (persists_first t ≡ true)
          × Did
              (Traced.update_message (record msg {
                deleted = true;
                content = record { text = []; mentions = [] };
                media = none;
              }))
              t
          × Tried (Traced.kafka (Traced.message_deleted msg.conversation_id msg.id user_id)) t
          × Tried
              (Traced.realtime msg.conversation_id "message.deleted" (
                fields (
                  ("message_id", text msg.id)
                  ∷ ("conversation_id", text msg.conversation_id)
                  ∷ [])))
              t)
        (λ e (w', t). Untouched t)
        (delete_message (traced s) message_id user_id (w, []))
unfolding delete_message
delete_message_ends s message_id user_id w w₁ msg found =
    rw found (elim (Bool-cases (msg.sender_id == user_id)) [
      | inr other ↦ rw other (refl, refl)
      | inl own ↦ rw own (elim (run-cases (s.msg_repo.update (deleted_message msg) w₁)) [
        | inr (e, w₂, failed) ↦ rw failed (refl, refl)
        | inl (u', w₂, stored) ↦ rw stored (
          (eq_iff msg.sender_id user_id).0 own,
          refl,
          inr (inr (inl refl)),
          inr (inl refl),
          inl refl,
        )
      ])
    ])

-- EditMessage does not ask for a text: an empty one passes its checks where any other does, and the
-- message that is stored then is one that Validate refuses.
edit_to_empty_text :
    (msg : Message) (user_id : GoString)
    → May msg user_id []
    → (check_edit msg user_id [] ≡ ok tt) × (is_ok (validate (edited_message msg [])) ≡ false)
unfolding check_edit validate
edit_to_empty_text msg user_id may = (
  ground (arith, eq_iff msg.sender_id user_id, eq_iff msg.type message_type_text),
  ground (arith, eq_iff msg.type message_type_text),
)
