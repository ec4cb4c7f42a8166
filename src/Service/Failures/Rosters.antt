-- ===== src/Service/Failures/Rosters.antt =====
-- Errors of the use cases that open conversations and change who takes part, and of HandleTyping.
use be_modami_chat_service.Prelude.{
  ◌≡◌, refl, ◌||◌, Bool, true, false, [], any, Bool-cases, inl, inr,
}
use be_modami_chat_service.Text.{GoString, ◌==◌}
use be_modami_chat_service.Exec.{run-cases}
use be_modami_chat_service.Result.{Result-cases}
use be_modami_chat_service.Domain.Conversation.{
  has_member, is_admin, add_participant, role_member, joined, new_direct_conversation,
  new_group_conversation,
}
use be_modami_chat_service.Service.Defs.{ChatService}
use be_modami_chat_service.Service.Traced.{traced, is_write, is_unread}
use be_modami_chat_service.Service.CreateConversation.{
  CreateDirectChatCommand, CreateGroupCommand, create_direct_chat, create_group, add_participant_by,
  remove_participant_by,
}
use be_modami_chat_service.Service.ChatService.{handle_typing}
use be_modami_chat_service.Service.Failures.{FailsSafely}

module _ {W : Type 0} (s : ChatService W) where
  pub create_direct_chat_fails :
      (cmd : CreateDirectChatCommand) (w : W)
      → FailsSafely (create_direct_chat (traced s) cmd (w, []))
  unfolding create_direct_chat
  create_direct_chat_fails cmd w = elim (Bool-cases (cmd.user_id1 == cmd.user_id2)) [
    | inl self ↦ rw self ((refl, refl), refl, refl)
    | inr two ↦
        rw two (elim (run-cases (s.conv_repo.find_direct_chat cmd.user_id1 cmd.user_id2 w)) [
          | inl (conv, w₁, eq) ↦ rw eq tt
          | inr (e, w₁, eq) ↦
              let (id, w₂) = s.id_gen.new_id w₁ in
              let (now, w₃) = s.now w₂ in
              rw eq
                (elim (run-cases (
                  s.conv_repo.create (new_direct_conversation id cmd.user_id1 cmd.user_id2 now)
                    w₃)) [
                      | inr (e', w', failed) ↦ rw failed ((refl, refl), refl, refl)
                      | inl (a, w', stored) ↦ rw stored tt
                    ])
        ])
  ]

  pub create_group_fails :
      (cmd : CreateGroupCommand) (w : W) → FailsSafely (create_group (traced s) cmd (w, []))
  unfolding create_group
  create_group_fails cmd w =
      let (id, w₂) = s.id_gen.new_id w in
      let (now, w₃) = s.now w₂ in
      elim (Result-cases (new_group_conversation id cmd.name cmd.created_by cmd.member_ids now)) [
        | inr (e, bad) ↦ rw bad ((refl, refl), refl, refl)
        | inl (conv, good) ↦ rw good (elim (run-cases (s.conv_repo.create conv w₃)) [
          | inr (e', w', failed) ↦ rw failed ((refl, refl), refl, refl)
          | inl (a, w', stored) ↦ rw stored tt
        ])
      ]

  pub add_participant_fails :
      (c requester u : GoString) (w : W)
      → FailsSafely (add_participant_by (traced s) c requester u (w, []))
  unfolding add_participant_by
  add_participant_fails c requester u w = elim (run-cases (s.conv_repo.find_by_id c w)) [
    | inr (e, w', eq) ↦ rw eq ((refl, refl), refl, refl)
    | inl (conv, w₁, eq) ↦ rw eq (elim (Bool-cases (is_admin conv requester)) [
      | inr out ↦ rw out ((refl, refl), refl, refl)
      | inl admin ↦
          let (joined_now, w₂) = s.now w₁ in
          let (now, w₃) = s.now w₂ in
          rw admin (elim (Result-cases (add_participant conv u joined_now now).0) [
            | inr (e, bad) ↦ rw bad ((refl, refl), refl, refl)
            | inl (a, good) ↦
                rw good
                  (elim (run-cases (s.conv_repo.add_participant c (joined u role_member 0) w₃)) [
                    | inr (e', w', failed) ↦ rw failed ((refl, refl), refl, refl)
                    | inl (a, w', stored) ↦ rw stored tt
                  ])
          ])
    ])
  ]

  pub remove_participant_fails :
      (c requester u : GoString) (w : W)
      → FailsSafely (remove_participant_by (traced s) c requester u (w, []))
  unfolding remove_participant_by
  remove_participant_fails c requester u w = elim (run-cases (s.conv_repo.find_by_id c w)) [
    | inr (e, w', eq) ↦ rw eq ((refl, refl), refl, refl)
    | inl (conv, w₁, eq) ↦ rw eq (elim (Bool-cases (requester == u || is_admin conv requester)) [
      | inr out ↦ rw out ((refl, refl), refl, refl)
      | inl may ↦ rw may (elim (run-cases (s.conv_repo.remove_participant c u w₁)) [
        | inr (e', w', failed) ↦ rw failed ((refl, refl), refl, refl)
        | inl (a, w', stored) ↦ rw stored tt
      ])
    ])
  ]

  -- HandleTyping writes nothing to the database at all.
  pub handle_typing_writes :
      (c u : GoString) (typing : Bool) (w : W)
      → let t = (handle_typing (traced s) c u typing (w, [])).1.1 in
        (any is_write t ≡ false) × (any is_unread t ≡ false)
  unfolding handle_typing
  handle_typing_writes c u true w = elim (run-cases (s.conv_repo.find_by_id c w)) [
    | inr (e, w', eq) ↦ rw eq (refl, refl)
    | inl (conv, w₁, eq) ↦ rw eq (elim (Bool-cases (has_member conv u)) [
      | inr out ↦ rw out (refl, refl)
      | inl member ↦ rw member (elim (run-cases (s.presence.set_typing c u w₁)) [
        | inr (e, w', failed) ↦ rw failed (refl, refl)
        | inl (a, w', done) ↦ rw done (refl, refl)
      ])
    ])
  ]
  handle_typing_writes c u false w = elim (run-cases (s.conv_repo.find_by_id c w)) [
    | inr (e, w', eq) ↦ rw eq (refl, refl)
    | inl (conv, w₁, eq) ↦ rw eq (elim (Bool-cases (has_member conv u)) [
      | inr out ↦ rw out (refl, refl)
      | inl member ↦ rw member (elim (run-cases (s.presence.clear_typing c u w₁)) [
        | inr (e, w', failed) ↦ rw failed (refl, refl)
        | inl (a, w', done) ↦ rw done (refl, refl)
      ])
    ])
  ]
