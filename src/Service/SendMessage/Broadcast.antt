-- ===== src/Service/SendMessage/Broadcast.antt =====
-- What SendMessage has done, and in which order.
use be_modami_chat_service.Prelude.{
  ◌≡◌, refl, ◌∙◌, true, false, not, ◌&&◌, List, [], any, arith, inl, inr, count, if◌then◌else◌,
}
use be_modami_chat_service.Text.{GoString, ◌==◌}
use be_modami_chat_service.Result.{ok}
use be_modami_chat_service.Port.{whole}
use be_modami_chat_service.Domain.Message.{Message}
use be_modami_chat_service.Domain.Conversation.{has_member, is_admin, participant_ids, Conversation}
use be_modami_chat_service.Domain.Conversation.Members.{contains-participant_ids}
use be_modami_chat_service.Service.Defs.{ChatService}
use be_modami_chat_service.Service.Rules.{Ends}
use be_modami_chat_service.Service.Traced
use be_modami_chat_service.Service.Traced.{
  Call, Entry, Traced, traced, is_broadcast, is_persisted, is_increment, is_unread, stores_first,
  stores_message, is_effect, is_write, Untouched, Harmless, Did, Tried,
}
use be_modami_chat_service.Service.SendMessage.{
  SendMessageCommand, built, last_message_of, send_message,
}
use be_modami_chat_service.Service.SendMessage.Endings.{
  increment_others-stores_first, increment_others-keeps, increment_others-count,
  increment_others-is_increment, stored_trace, send_ends,
}

pub send_message_fails :
    {W : Type 0} (s : ChatService W) (cmd : SendMessageCommand) (w : W)
    → Ends (λ msg w'. Unit {0}) (λ e (w', t). Harmless t) (send_message (traced s) cmd (w, []))
send_message_fails s cmd w =
    send_ends s cmd w _ _ (λ e w' t h n. h)
      (λ w₁ w₂ w₃ conv id msg b₁ b₂ b₃ limiter found member allowed. tt)

pub send_stores_first :
    {W : Type 0} (s : ChatService W) (cmd : SendMessageCommand) (w : W)
    → Ends
        (λ msg (w', t). (stores_first t ≡ true) × (any stores_message t ≡ true))
        (λ e (w', t). Untouched t × (any is_unread t ≡ false))
        (send_message (traced s) cmd (w, []))
send_stores_first s cmd w =
    send_ends s cmd w _ _ (λ e w' t u n. (u.0, n))
      (λ w₁ w₂ w₃ conv id msg b₁ b₂ b₃ limiter found member allowed.
        increment_others-stores_first s cmd.sender_id cmd.conversation_id (participant_ids conv) w₃
          (stored_trace s cmd id msg b₁ b₂ b₃) refl refl)

-- A new message of a command, with whatever id.
abbrev pub IsMessageOf : SendMessageCommand → Message → Type 0
IsMessageOf cmd m =
    (m.conversation_id ≡ cmd.conversation_id)
    × (m.sender_id ≡ cmd.sender_id)
    × (m.type ≡ cmd.type)
    × (m.content ≡ cmd.content)
    × (m.media ≡ cmd.media)
    × (m.reply_to ≡ cmd.reply_to)
    × (m.forwarded_from ≡ cmd.forwarded_from)
    × (m.reactions ≡ [])
    × (m.edited ≡ false)
    × (m.deleted ≡ false)

-- It was tried to make the message the last one of the conversation, and to tell Kafka and the
-- conversation of it.
abbrev pub Announced : (conversation_id : GoString) → Message → List Entry → Type 0
Announced conversation_id msg t =
    Tried (Traced.update_last_message conversation_id (last_message_of msg)) t
    × Tried (Traced.kafka (Traced.message_sent msg)) t
    × Tried (Traced.realtime conversation_id "message.new" (whole msg)) t

-- SendMessage stores the message before it tells of it: if it returns a message then Create has
-- succeeded for a new message of the command, in its conversation, by its sender and with its
-- content; every other write to the database, every call of Kafka or Centrifugo and every change
-- of an unread count came after that; and it has tried to make the returned message the last one
-- of the conversation, and to tell Kafka and the conversation of it. If it returns an error then
-- no write was tried but by its very last call, which failed (what the repository may have
-- written before it failed is the repository's), nothing was broadcast, and no unread count was
-- changed.
pub send_persists_first :
    {W : Type 0} (s : ChatService W) (cmd : SendMessageCommand) (w : W)
    → Ends
        (λ msg (w', t).
          (stores_first t ≡ true)
          × (any stores_message t ≡ true)
          × ((m : Message) × IsMessageOf cmd m × Did (Traced.create_message m) t)
          × Announced cmd.conversation_id msg t)
        (λ e (w', t). Untouched t × (any is_unread t ≡ false))
        (send_message (traced s) cmd (w, []))
send_persists_first s cmd w =
    send_ends s cmd w _ _ (λ e w' t u n. (u.0, n))
      (λ w₁ w₂ w₃ conv id msg b₁ b₂ b₃ limiter found member allowed.
        let t = stored_trace s cmd id msg b₁ b₂ b₃ in
        let (first, stored) =
          increment_others-stores_first s cmd.sender_id cmd.conversation_id (participant_ids conv)
            w₃ t refl refl in
        let (made, told) =
          increment_others-keeps s cmd.sender_id cmd.conversation_id
            (λ t.
              Did (Traced.create_message (built cmd id)) t × Announced cmd.conversation_id msg t)
            (λ e t (d, (a, b, c)). (inr d, (inr a, inr b, inr c))) (participant_ids conv) w₃ t
            (inr (inr (inr (inl refl))), (inr (inr (inl refl)), inr (inl refl), inl refl)) in
        (
          first,
          stored,
          (built cmd id, (refl, refl, refl, refl, refl, refl, refl, refl, refl, refl), made),
          told,
        ))

-- Who may send, and whose unread counts the cache is asked to raise, where the rate limiter passes
-- and the conversation is found: if SendMessage returns a message then its sender is a member of that
-- conversation, and an admin if only admins can send; and the cache was asked to raise the count of a
-- user for the conversation exactly if that user is a member other than the sender, and as often as
-- that user is among the participants, whether or not the cache then did so. If it returns an error
-- then the cache was not asked to change a count.
pub send_counts_others :
    {W : Type 0} (s : ChatService W) (cmd : SendMessageCommand) (w w₁ w₂ : W) (conv : Conversation)
    (v : GoString)
    → s.rate_limiter.allow_message cmd.sender_id w ≡ (ok true, w₁)
    → s.conv_repo.find_by_id cmd.conversation_id w₁ ≡ (ok conv, w₂)
    → Ends
        (λ msg (w', t).
          (has_member conv cmd.sender_id ≡ true)
          × ((conv.settings.only_admins_can_send && not (is_admin conv cmd.sender_id)) ≡ false)
          × (any (is_increment v cmd.conversation_id) t
              ≡ (has_member conv v && not (cmd.sender_id == v)))
          × (count (is_increment v cmd.conversation_id) t
              ≡ (if cmd.sender_id == v then 0 else count (λ u. u == v) (participant_ids conv))))
        (λ e (w', t). any is_unread t ≡ false)
        (send_message (traced s) cmd (w, []))
send_counts_others s cmd w w₁ w₂ conv v limiter found =
    send_ends s cmd w _ _ (λ e w' t u n. n)
      (λ x₁ x₂ w₃ conv' id msg b₁ b₂ b₃ limiter' found' member allowed.
        let same : conv' ≡ conv = ground arith in
        (
          rw same at member,
          rw same at allowed,
          increment_others-is_increment s cmd.sender_id cmd.conversation_id (participant_ids conv')
                v w₃ (stored_trace s cmd id msg b₁ b₂ b₃)
              ∙ rw same (ground (arith, contains-participant_ids conv v)),
          increment_others-count s cmd.sender_id cmd.conversation_id (participant_ids conv') v w₃
                (stored_trace s cmd id msg b₁ b₂ b₃)
              ∙ rw same (ground arith),
        ))
