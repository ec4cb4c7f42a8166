-- ===== src/Service/Failures.antt =====
-- What a use case that returns an error has done: at most a last write, which failed.
pub mod Rosters
use be_modami_chat_service.Prelude.{
  ◌≡◌, refl, ◌||◌, Bool, true, false, [], ◌∷◌, any, not, Bool-cases, inl, inr,
}
use be_modami_chat_service.Text.{GoString, ◌==◌}
use be_modami_chat_service.Exec.{Exec, run-cases}
use be_modami_chat_service.Result.{Result, ok, err, Result-cases, errors_is, reaction_limit_reached}
use be_modami_chat_service.Domain.Message.{message_type_text}
use be_modami_chat_service.Domain.Conversation.{
  has_member, is_admin, add_participant, role_member, joined, new_direct_conversation,
  new_group_conversation,
}
use be_modami_chat_service.Domain.Cursor.{PageRequest, normalize_limit}
use be_modami_chat_service.Service.Defs.{ChatService}
use be_modami_chat_service.Service.Rules.{Ends}
use be_modami_chat_service.Service.Traced.{Traced, traced, Harmless}
use be_modami_chat_service.Service.SendMessage.{SendMessageCommand, send_message}
use be_modami_chat_service.Service.CreateConversation.{
  CreateDirectChatCommand, CreateGroupCommand, create_direct_chat, create_group, add_participant_by,
  remove_participant_by,
}
use be_modami_chat_service.Service.ChatService.{
  get_messages, get_conversations, get_conversation, mark_as_read, edit_message, check_edit,
  edited_message, delete_message, deleted_message, add_reaction_by, remove_reaction_by,
  get_unread_counts,
}

-- An error leaves no trace but that of reads and of writes that failed.
abbrev pub FailsSafely : {W A : Type 0} → Result A × Traced W → Type 0
FailsSafely r = Ends (λ a w. Unit {0}) (λ e (w, t). Harmless t) r

module _ {W : Type 0} (s : ChatService W) where
  pub get_messages_fails :
      (c u : GoString) (page : PageRequest) (w : W)
      → FailsSafely (get_messages (traced s) c u page (w, []))
  unfolding get_messages
  get_messages_fails c u page w = elim (run-cases (s.conv_repo.find_by_id c w)) [
    | inr (e, w', eq) ↦ rw eq ((refl, refl), refl, refl)
    | inl (conv, w₁, eq) ↦ rw eq (elim (Bool-cases (has_member conv u)) [
      | inr out ↦ rw out ((refl, refl), refl, refl)
      | inl member ↦
          rw member
            (elim (run-cases (
              s.msg_repo.find_by_conversation c (record page { limit = normalize_limit page.limit })
                w₁)) [
                  | inr (e, w', eq') ↦ rw eq' ((refl, refl), refl, refl)
                  | inl (a, w', eq') ↦ rw eq' tt
                ])
    ])
  ]

  pub get_conversations_fails :
      (u : GoString) (page : PageRequest) (w : W)
      → FailsSafely (get_conversations (traced s) u page (w, []))
  unfolding get_conversations
  get_conversations_fails u page w =
      elim (run-cases
        (s.conv_repo.find_by_user u (record page { limit = normalize_limit page.limit }) w)) [
          | inr (e, w', eq) ↦ rw eq ((refl, refl), refl, refl)
          | inl (a, w', eq) ↦ rw eq tt
        ]

  pub get_conversation_fails :
      (c u : GoString) (w : W) → FailsSafely (get_conversation (traced s) c u (w, []))
  unfolding get_conversation
  get_conversation_fails c u w = elim (run-cases (s.conv_repo.find_by_id c w)) [
    | inr (e, w', eq) ↦ rw eq ((refl, refl), refl, refl)
    | inl (conv, w₁, eq) ↦ rw eq (elim (Bool-cases (has_member conv u)) [
      | inr out ↦ rw out ((refl, refl), refl, refl)
      | inl member ↦ rw member tt
    ])
  ]

  pub mark_as_read_fails :
      (c u m : GoString) (w : W) → FailsSafely (mark_as_read (traced s) c u m (w, []))
  unfolding mark_as_read
  mark_as_read_fails c u m w = elim (run-cases (s.conv_repo.find_by_id c w)) [
    | inr (e, w', eq) ↦ rw eq ((refl, refl), refl, refl)
    | inl (conv, w₁, eq) ↦ rw eq (elim (Bool-cases (has_member conv u)) [
      | inr out ↦ rw out ((refl, refl), refl, refl)
      | inl member ↦ rw member (elim (run-cases (s.msg_repo.find_by_id m w₁)) [
        | inr (e, w', eq') ↦ rw eq' ((refl, refl), refl, refl)
        | inl (msg, w₂, eq') ↦ rw eq' (elim (Bool-cases (msg.conversation_id == c)) [
          | inr elsewhere ↦ rw elsewhere ((refl, refl), refl, refl)
          | inl here ↦
              rw here
                (elim (run-cases (s.conv_repo.update_read_cursor c u m (s.now w₂).0 (s.now w₂).1)) [
                  | inr (e, w', failed) ↦ rw failed ((refl, refl), refl, refl)
                  | inl (a, w', stored) ↦ rw stored tt
                ])
        ])
      ])
    ])
  ]

  pub edit_message_fails :
      (m u new_text : GoString) (w : W) → FailsSafely (edit_message (traced s) m u new_text (w, []))
  unfolding edit_message
  edit_message_fails m u new_text w = elim (run-cases (s.msg_repo.find_by_id m w)) [
    | inr (e, w', eq) ↦ rw eq ((refl, refl), refl, refl)
    | inl (msg, w₁, eq) ↦ rw eq (elim (Result-cases (check_edit msg u new_text)) [
      | inr (e, bad) ↦ rw bad ((refl, refl), refl, refl)
      | inl (a, good) ↦
          rw good (elim (run-cases (s.msg_repo.update (edited_message msg new_text) w₁)) [
            | inr (e, w', failed) ↦ rw failed ((refl, refl), refl, refl)
            | inl (a, w', stored) ↦ rw stored tt
          ])
    ])
  ]

  pub delete_message_fails :
      (m u : GoString) (w : W) → FailsSafely (delete_message (traced s) m u (w, []))
  unfolding delete_message
  delete_message_fails m u w = elim (run-cases (s.msg_repo.find_by_id m w)) [
    | inr (e, w', eq) ↦ rw eq ((refl, refl), refl, refl)
    | inl (msg, w₁, eq) ↦ rw eq (elim (Bool-cases (msg.sender_id == u)) [
      | inr other ↦ rw other ((refl, refl), refl, refl)
      | inl sender ↦ rw sender (elim (run-cases (s.msg_repo.update (deleted_message msg) w₁)) [
        | inr (e, w', failed) ↦ rw failed ((refl, refl), refl, refl)
        | inl (a, w', stored) ↦ rw stored tt
      ])
    ])
  ]

  pub add_reaction_fails :
      (m u emoji : GoString) (w : W) → FailsSafely (add_reaction_by (traced s) m u emoji (w, []))
  unfolding add_reaction_by
  add_reaction_fails m u emoji w = elim (run-cases (s.msg_repo.find_by_id m w)) [
    | inr (e, w', eq) ↦ rw eq ((refl, refl), refl, refl)
    | inl (msg, w₁, eq) ↦ rw eq (elim (run-cases (s.conv_repo.find_by_id msg.conversation_id w₁)) [
      | inr (e, w', eq') ↦ rw eq' ((refl, refl), refl, refl)
      | inl (conv, w₂, eq') ↦ rw eq' (elim (Bool-cases (has_member conv u)) [
        | inr out ↦ rw out ((refl, refl), refl, refl)
        | inl member ↦ rw member (elim (run-cases (s.msg_repo.add_reaction m emoji u w₂)) [
          | inr (e, w', failed) ↦
              rw failed (elim (Bool-cases (errors_is e reaction_limit_reached)) [
                | inl full ↦ rw full ((refl, refl), refl, refl)
                | inr other ↦ rw other ((refl, refl), refl, refl)
              ])
          | inl (a, w', stored) ↦ rw stored tt
        ])
      ])
    ])
  ]

  pub remove_reaction_fails :
      (m u emoji : GoString) (w : W) → FailsSafely (remove_reaction_by (traced s) m u emoji (w, []))
  unfolding remove_reaction_by
  remove_reaction_fails m u emoji w = elim (run-cases (s.msg_repo.find_by_id m w)) [
    | inr (e, w', eq) ↦ rw eq ((refl, refl), refl, refl)
    | inl (msg, w₁, eq) ↦ rw eq (elim (run-cases (s.msg_repo.remove_reaction m emoji u w₁)) [
      | inr (e, w', failed) ↦ rw failed ((refl, refl), refl, refl)
      | inl (a, w', stored) ↦ rw stored tt
    ])
  ]

  pub get_unread_counts_fails :
      (u : GoString) (w : W) → FailsSafely (get_unread_counts (traced s) u (w, []))
  unfolding get_unread_counts
  get_unread_counts_fails u w = elim (run-cases (s.cache.get_unread_counts u w)) [
    | inr (e, w', eq) ↦ rw eq ((refl, refl), refl, refl)
    | inl (a, w', eq) ↦ rw eq tt
  ]
