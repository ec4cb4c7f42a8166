-- ===== src/Service/CreateConversation/Outcomes.antt =====
-- Opening conversations and changing who takes part.
use be_modami_chat_service.Prelude.{
  suc, ◌≢◌, ◌≡◌, ◌⊎◌, ◌≤◌, refl, true, false, ◌||◌, [], any, arith, length, Bool-cases, inl, inr,
  Time,
}
use be_modami_chat_service.Text.{GoString, ◌==◌, contains}
use be_modami_chat_service.Text.Laws.{eq_iff, eq_refl}
use be_modami_chat_service.Exec.{run-cases}
use be_modami_chat_service.Result.{Error, ok, err, is_ok, Result-cases}
use be_modami_chat_service.Domain.Conversation.{has_member, is_admin, Conversation}
use be_modami_chat_service.Service.Defs.{ChatService}
use be_modami_chat_service.Service.Rules.{Ends}
use be_modami_chat_service.Service.Traced
use be_modami_chat_service.Service.Traced.{
  Call, Entry, Traced, traced, is_broadcast, is_persisted, is_increment, is_unread, persists_first,
  Untouched, Did, Tried, changes_roster, is_write,
}
use be_modami_chat_service.Domain.Conversation.{
  role_member, joined, conversation_type_direct, new_direct_conversation, new_group_conversation,
  add_participant, remove_participant,
}
use be_modami_chat_service.Domain.Conversation.Members.{has_member-add_participant}
use be_modami_chat_service.Domain.Conversation.Direct.{new_direct_members}
use be_modami_chat_service.Domain.Conversation.Groups.{new_group_members}
use be_modami_chat_service.Service.CreateConversation.{
  CreateDirectChatCommand, CreateGroupCommand, create_direct_chat, create_group, add_participant_by,
  remove_participant_by,
}

-- The members of a conversation are two users.
abbrev pub Between : GoString → GoString → Conversation → GoString → Type 0
Between a b conv v = has_member conv v ≡ (a == v || b == v)

add_participant-ok :
    (conv : Conversation) (u : GoString) (joined_now now : Time) {x : Unit {0}}
    → (add_participant conv u joined_now now).0 ≡ ok x
    → ((conv.type == conversation_type_direct) ≡ false)
      × (has_member conv u ≡ false)
      × (suc (length conv.participants) ≤ 50)
add_participant-ok conv u joined_now now h =
    ground (arith, has_member-add_participant conv u u joined_now now)

module _ {W : Type 0} (s : ChatService W) where
  -- CreateDirectChat, where no chat of the two users is found: a user gets no chat with himself but an
  -- error, for which no port is called and nothing changes; any other two get a conversation that the
  -- repository has stored, whose members are these two and nobody else. If it returns an error, no
  -- write was tried but by its very last call, which failed (what the repository may have written
  -- before it failed is the repository's), and nothing was broadcast.
  pub create_direct_chat_ends :
      (cmd : CreateDirectChatCommand) (v : GoString) (w w₁ : W) (e : Error)
      → s.conv_repo.find_direct_chat cmd.user_id1 cmd.user_id2 w ≡ (err e, w₁)
      → Ends
          (λ conv (w', t).
            (cmd.user_id1 ≢ cmd.user_id2)
            × Between cmd.user_id1 cmd.user_id2 conv v
            × Did (Traced.create_conversation conv) t)
          (λ x (w', t). Untouched t × ((cmd.user_id1 ≢ cmd.user_id2) ⊎ ((t ≡ []) × (w' ≡ w))))
          (create_direct_chat (traced s) cmd (w, []))
  unfolding create_direct_chat
  create_direct_chat_ends cmd v w w₁ e absent = elim (Bool-cases (cmd.user_id1 == cmd.user_id2)) [
    | inl self ↦ rw self ((refl, refl), inr (refl, refl))
    | inr two ↦
        let id = (s.id_gen.new_id w₁).0 in
        let n = s.now (s.id_gen.new_id w₁).1 in
        let ne : cmd.user_id1 ≢ cmd.user_id2 =
          λ x. cc (two, (eq_iff cmd.user_id1 cmd.user_id2).1 x) in
        rw two (
          rw absent
            (elim (run-cases
              (s.conv_repo.create (new_direct_conversation id cmd.user_id1 cmd.user_id2 n.0) n.1)) [
                | inr (e', w₂, failed) ↦ rw failed ((refl, refl), inl ne)
                | inl (u, w₂, stored) ↦
                    rw stored
                      (ne, (new_direct_members id cmd.user_id1 cmd.user_id2 n.0 v ne).2, inl refl)
              ]))
  ]

  -- CreateGroup returns a group that the repository has stored; its members are its creator and the
  -- listed users, and the creator alone is its admin. If it returns an error, no write was tried but
  -- by its very last call, which failed (what the repository may have written before it failed is the
  -- repository's), and nothing was broadcast.
  pub create_group_ends :
      (cmd : CreateGroupCommand) (v : GoString) (w : W)
      → Ends
          (λ conv (w', t).
            (has_member conv v ≡ (cmd.created_by == v || contains cmd.member_ids v))
            × (is_admin conv v ≡ (cmd.created_by == v))
            × Did (Traced.create_conversation conv) t)
          (λ x (w', t). Untouched t)
          (create_group (traced s) cmd (w, []))
  unfolding create_group
  create_group_ends cmd v w =
      let id = (s.id_gen.new_id w).0 in
      let n = s.now (s.id_gen.new_id w).1 in
      elim (Result-cases (new_group_conversation id cmd.name cmd.created_by cmd.member_ids n.0)) [
        | inr (e, refused) ↦ rw refused (refl, refl)
        | inl (conv, made) ↦ rw made (elim (run-cases (s.conv_repo.create conv n.1)) [
          | inr (e', w₂, failed) ↦ rw failed (refl, refl)
          | inl (u, w₂, stored) ↦
              let (members, admins, roster) =
                new_group_members id cmd.name cmd.created_by cmd.member_ids n.0 conv v made in
              rw stored (members, admins, inl refl)
        ])
      ]

  -- AddParticipant, where the conversation is found: it asks the repository for nothing unless the
  -- requester is an admin of a conversation that is not direct, has fewer than 50 participants and
  -- not yet this user; then it adds the user with the role of a member. If it returns an error, no
  -- write was tried but by its very last call, which failed, and nothing was broadcast.
  pub add_participant_ends :
      (conversation_id requester_id user_id : GoString) (w w₁ : W) (conv : Conversation)
      → s.conv_repo.find_by_id conversation_id w ≡ (ok conv, w₁)
      → Ends
          (λ u (w', t).
            (is_admin conv requester_id ≡ true)
            × ((conv.type == conversation_type_direct) ≡ false)
            × (has_member conv user_id ≡ false)
            × (suc (length conv.participants) ≤ 50)
            × Did (Traced.add_participant conversation_id (joined user_id role_member 0)) t)
          (λ e (w', t).
            (any changes_roster t ≡ false)
            × Untouched t
            × ((any is_write t ≡ false)
                ⊎ ((is_admin conv requester_id ≡ true)
                    × ((conv.type == conversation_type_direct) ≡ false)
                    × (has_member conv user_id ≡ false)
                    × (suc (length conv.participants) ≤ 50))))
          (add_participant_by (traced s) conversation_id requester_id user_id (w, []))
  unfolding add_participant_by
  add_participant_ends conversation_id requester_id user_id w w₁ conv found =
      rw found (elim (Bool-cases (is_admin conv requester_id)) [
        | inr no_admin ↦ rw no_admin (refl, (refl, refl), inl refl)
        | inl admin ↦
            let n = s.now w₁ in
            let n' = s.now n.1 in
            rw admin (elim (Result-cases (add_participant conv user_id n.0 n'.0).0) [
              | inr (e, refused) ↦ rw refused (refl, (refl, refl), inl refl)
              | inl (x, fits) ↦
                  let (group, fresh, room) = add_participant-ok conv user_id n.0 n'.0 fits in
                  rw fits
                    (elim (run-cases (
                      s.conv_repo.add_participant conversation_id (joined user_id role_member 0)
                        n'.1)) [
                          | inr (e, w₂, failed) ↦
                              rw failed (refl, (refl, refl), inr (refl, group, fresh, room))
                          | inl (tt, w₂, stored) ↦ rw stored (refl, group, fresh, room, inl refl)
                        ])
            ])
      ])

  -- RemoveParticipant, where the conversation is found: the repository has removed the user, and was
  -- asked to do so only for the user himself or for an admin. If it returns an error, no write was
  -- tried but by its very last call, and that only for the user himself or for an admin; it failed
  -- (what the repository may have written before it failed is the repository's), and nothing was
  -- broadcast.
  pub remove_participant_ends :
      (conversation_id requester_id user_id : GoString) (w w₁ : W) (conv : Conversation)
      → s.conv_repo.find_by_id conversation_id w ≡ (ok conv, w₁)
      → Ends
          (λ u (w', t).
            ((requester_id ≡ user_id) ⊎ (is_admin conv requester_id ≡ true))
            × Did (Traced.remove_participant conversation_id user_id) t)
          (λ e (w', t).
            Untouched t
            × ((any is_write t ≡ false)
                ⊎ ((requester_id ≡ user_id) ⊎ (is_admin conv requester_id ≡ true))))
          (remove_participant_by (traced s) conversation_id requester_id user_id (w, []))
  unfolding remove_participant_by
  remove_participant_ends conversation_id requester_id user_id w w₁ conv found =
      rw found (elim (Bool-cases (requester_id == user_id || is_admin conv requester_id)) [
        | inr barred ↦ rw barred ((refl, refl), inl refl)
        | inl may ↦
            let who : (requester_id ≡ user_id) ⊎ (is_admin conv requester_id ≡ true) =
              ground (arith, eq_iff requester_id user_id) in
            rw may (elim (run-cases (s.conv_repo.remove_participant conversation_id user_id w₁)) [
              | inr (e, w₂, failed) ↦ rw failed ((refl, refl), inr who)
              | inl (tt, w₂, removed) ↦ rw removed (who, inl refl)
            ])
      ])

  -- RemoveParticipant does not use Conversation.RemoveParticipant, which refuses a direct
  -- conversation: a participant who leaves a direct conversation is removed by the repository.
  remove_from_direct :
      (conversation_id user_id : GoString) (now : Time) (w w₁ : W) (conv : Conversation)
      → s.conv_repo.find_by_id conversation_id w ≡ (ok conv, w₁)
      → conv.type ≡ conversation_type_direct
      → (is_ok (remove_participant conv user_id now).0 ≡ false)
        × (remove_participant_by s conversation_id user_id user_id w
            ≡ s.conv_repo.remove_participant conversation_id user_id w₁)
  unfolding remove_participant_by remove_participant
  remove_from_direct conversation_id user_id now w w₁ conv found direct = (
    rw (direct, remove_participant, eq_refl conversation_type_direct),
    rw (found, eq_refl user_id),
  )
