-- ===== src/Service/SendMessage/Endings.antt =====
-- How a run of SendMessage ends: refused, or with a trace that the unread counts end.
use be_modami_chat_service.Prelude.{
  ◌≡◌, refl, ◌∙◌, Bool, true, false, not, ◌&&◌, ◌||◌, List, [], ◌∷◌, any, arith, Bool-cases, inl,
  inr, ℕ, ◌+◌, count, if◌then◌else◌,
}
use be_modami_chat_service.Text.{GoString, ◌==◌, contains}
use be_modami_chat_service.Text.Laws.{eq_iff, eq_refl}
use be_modami_chat_service.Exec.{run-cases, pure}
use be_modami_chat_service.Result.{Error, ok, is_ok, Result-cases}
use be_modami_chat_service.Port.{whole}
use be_modami_chat_service.Domain.Message.{Message, validate}
use be_modami_chat_service.Domain.Conversation.{has_member, is_admin, participant_ids, Conversation}
use be_modami_chat_service.Service.Defs.{ChatService}
use be_modami_chat_service.Service.Rules.{Ends, entry, ok_rule}
use be_modami_chat_service.Service.Traced
use be_modami_chat_service.Service.Traced.{
  Call, Entry, Traced, traced, is_broadcast, is_persisted, is_increment, is_unread, stores_first,
  stores_message, is_effect, is_write, Untouched, Harmless, Did, Tried,
}
use be_modami_chat_service.Service.SendMessage.{
  SendMessageCommand, built, last_message_of, increment_others, after_checks, send_message,
}

module _ {W : Type 0} (s : ChatService W) where
  module _ (sender conv_id : GoString) where
    increment_others-ok :
        (pids : List GoString) (w : Traced W)
        → (increment_others (traced s) sender conv_id pids w).0 ≡ ok tt
    unfolding increment_others
    increment_others-ok [] w = refl
    increment_others-ok (pid ∷ pids) (w, t) = elim (Bool-cases (pid == sender)) [
      | inl self ↦ rw self (increment_others-ok pids (w, t))
      | inr other ↦ rw other (increment_others-ok pids _)
    ]

    pub increment_others-stores_first :
        (pids : List GoString) (w : W) (t : List Entry)
        → stores_first t ≡ true
        → any stores_message t ≡ true
        → let t' = (increment_others (traced s) sender conv_id pids (w, t)).1.1 in
          (stores_first t' ≡ true) × (any stores_message t' ≡ true)
    unfolding increment_others
    increment_others-stores_first [] w t h k = (h, k)
    increment_others-stores_first (pid ∷ pids) w t h k = elim (Bool-cases (pid == sender)) [
      | inl self ↦ rw self (increment_others-stores_first pids w t h k)
      | inr other ↦ rw other (
          increment_others-stores_first pids (s.cache.increment_unread pid conv_id w).1 _
            (ground arith) (ground arith))
    ]

    -- What holds of a trace, and of any longer one, holds after the counts.
    pub increment_others-keeps :
        (P : List Entry → Type 0)
        → ((e : Entry) (t : List Entry) → P t → P (e ∷ t))
        → (pids : List GoString) (w : W) (t : List Entry) → P t
        → P (increment_others (traced s) sender conv_id pids (w, t)).1.1
    unfolding increment_others
    increment_others-keeps P longer [] w t h = h
    increment_others-keeps P longer (pid ∷ pids) w t h = elim (Bool-cases (pid == sender)) [
      | inl self ↦ rw self (increment_others-keeps P longer pids w t h)
      | inr other ↦ rw other (
          increment_others-keeps P longer pids (s.cache.increment_unread pid conv_id w).1 _
            (longer _ t h))
    ]

    -- How often the cache is asked for a user: once for each time that the user is listed.
    abbrev pub due : (v : GoString) → List GoString → ℕ
    due v pids = if sender == v then 0 else count (λ u. u == v) pids

    pub increment_others-count :
        (pids : List GoString) (v : GoString) (w : W) (t : List Entry)
        → count
            (is_increment v conv_id)
            (increment_others (traced s) sender conv_id pids (w, t)).1.1
          ≡ due v pids + count (is_increment v conv_id) t
    unfolding increment_others
    increment_others-count [] v w t = ground arith
    increment_others-count (pid ∷ pids) v w t = elim (Bool-cases (pid == sender)) [
      | inl self ↦ rw self (
          increment_others-count pids v w t
          ∙ ground (arith, eq_iff pid sender, eq_iff pid v, eq_iff sender v))
      | inr other ↦ rw other (
          increment_others-count pids v (s.cache.increment_unread pid conv_id w).1 _
          ∙ ground (arith, eq_refl conv_id, eq_iff pid sender, eq_iff pid v, eq_iff sender v))
    ]

    pub increment_others-is_increment :
        (pids : List GoString) (v : GoString) (w : W) (t : List Entry)
        → any (is_increment v conv_id) (increment_others (traced s) sender conv_id pids (w, t)).1.1
          ≡ ((contains pids v && not (sender == v)) || any (is_increment v conv_id) t)
    unfolding increment_others
    increment_others-is_increment [] v w t = refl
    increment_others-is_increment (pid ∷ pids) v w t = elim (Bool-cases (pid == sender)) [
      | inl self ↦ rw self (
          increment_others-is_increment pids v w t
          ∙ ground (arith, eq_iff pid sender, eq_iff pid v, eq_iff sender v))
      | inr other ↦ rw other (
          increment_others-is_increment pids v (s.cache.increment_unread pid conv_id w).1 _
          ∙ ground (arith, eq_refl conv_id, eq_iff pid sender, eq_iff pid v, eq_iff sender v))
    ]

  -- The trace of a message that was stored, before the unread counts: the latest call first.
  abbrev pub stored_trace : SendMessageCommand → GoString → Message → (b₁ b₂ b₃ : Bool) → List Entry
  stored_trace cmd id msg b₁ b₂ b₃ =
      entry (Traced.realtime cmd.conversation_id "message.new" (whole msg)) b₃
      ∷ entry (Traced.kafka (Traced.message_sent msg)) b₂
      ∷ entry (Traced.update_last_message cmd.conversation_id (last_message_of msg)) b₁
      ∷ entry (Traced.create_message (built cmd id)) true
      ∷ entry Traced.read true
      ∷ entry (Traced.allow_message cmd.sender_id) true
      ∷ []

  -- SendMessage ends in one of two ways.
  module _ (cmd : SendMessageCommand) (w : W) (P : Message → Traced W → Type 0)
      (E : Error → Traced W → Type 0)
      (denied : (e : Error) (w' : W) (t : List Entry)
        → Harmless t
        → any is_unread t ≡ false
        → E e (w', t))
      (sent : (w₁ w₂ w₃ : W) (conv : Conversation) (id : GoString) (msg : Message) (b₁ b₂ b₃ : Bool)
        → s.rate_limiter.allow_message cmd.sender_id w ≡ (ok true, w₁)
        → s.conv_repo.find_by_id cmd.conversation_id w₁ ≡ (ok conv, w₂)
        → has_member conv cmd.sender_id ≡ true
        → (conv.settings.only_admins_can_send && not (is_admin conv cmd.sender_id)) ≡ false
        → P msg
            (increment_others
              (traced s)
              cmd.sender_id
              cmd.conversation_id
              (participant_ids conv)
              (w₃, stored_trace cmd id msg b₁ b₂ b₃)).1) where
    stored :
        (w₁ w₂ : W) (conv : Conversation)
        → s.rate_limiter.allow_message cmd.sender_id w ≡ (ok true, w₁)
        → s.conv_repo.find_by_id cmd.conversation_id w₁ ≡ (ok conv, w₂)
        → has_member conv cmd.sender_id ≡ true
        → (conv.settings.only_admins_can_send && not (is_admin conv cmd.sender_id)) ≡ false
        → Ends P E (
            after_checks
              (traced s)
              cmd
              conv
              (w₂, entry Traced.read true ∷ entry (Traced.allow_message cmd.sender_id) true ∷ []))
    unfolding after_checks
    stored w₁ w₂ conv limiter found member allowed =
        let id = (s.id_gen.new_id w₂).0 in
        let w₃ = (s.id_gen.new_id w₂).1 in
        elim (Result-cases (validate (built cmd id))) [
          | inr (e, bad) ↦ rw bad (denied _ _ _ ((refl, refl), refl, refl) refl)
          | inl (u, valid) ↦ rw valid (elim (run-cases (s.msg_repo.create (built cmd id) w₃)) [
            | inr (e, w', failed) ↦ rw failed (denied _ _ _ ((refl, refl), refl, refl) refl)
            | inl (msg, w₄, created) ↦
                let r₁ =
                  s.conv_repo.update_last_message cmd.conversation_id (last_message_of msg) w₄ in
                let r₂ = s.publisher.publish_message_sent msg r₁.1 in
                let r₃ =
                  s.realtime.publish_to_conversation cmd.conversation_id "message.new" (whole msg)
                    r₂.1 in
                let t = stored_trace cmd id msg (is_ok r₁.0) (is_ok r₂.0) (is_ok r₃.0) in
                rw created (
                  ok_rule P E
                    (increment_others (traced s) cmd.sender_id cmd.conversation_id
                      (participant_ids conv))
                    (pure msg) (r₃.1, t)
                    (increment_others-ok cmd.sender_id cmd.conversation_id (participant_ids conv)
                      (r₃.1, t))
                    (sent w₁ w₂ r₃.1 conv id msg (is_ok r₁.0) (is_ok r₂.0) (is_ok r₃.0) limiter
                      found member allowed))
          ])
        ]

    pub send_ends : Ends P E (send_message (traced s) cmd (w, []))
    unfolding send_message
    send_ends = elim (run-cases (s.rate_limiter.allow_message cmd.sender_id w)) [
      | inr (e, w', failed) ↦ rw failed (denied _ _ _ ((refl, refl), refl, refl) refl)
      | inl (false, w₁, limited) ↦ rw limited (denied _ _ _ ((refl, refl), refl, refl) refl)
      | inl (true, w₁, limiter) ↦
          rw limiter (elim (run-cases (s.conv_repo.find_by_id cmd.conversation_id w₁)) [
            | inr (e, w', failed) ↦ rw failed (denied _ _ _ ((refl, refl), refl, refl) refl)
            | inl (conv, w₂, found) ↦ rw found (elim (Bool-cases (has_member conv cmd.sender_id)) [
              | inr outsider ↦ rw outsider (denied _ _ _ ((refl, refl), refl, refl) refl)
              | inl member ↦
                  rw member
                    (elim (Bool-cases
                      (conv.settings.only_admins_can_send && not (is_admin conv cmd.sender_id))) [
                        | inl barred ↦ rw barred (denied _ _ _ ((refl, refl), refl, refl) refl)
                        | inr allowed ↦ rw allowed (stored w₁ w₂ conv limiter found member allowed)
                      ])
            ])
          ])
    ]
