-- ===== src/Tests/Service.antt =====
-- The theorems on the use cases at concrete data.
use be_modami_chat_service.Prelude.{
  suc, ◌≡◌, ◌≢◌, ◌⊎◌, ◌≤◌, refl, ◌||◌, ◌&&◌, not, true, false, [], ◌∷◌, none, any, length, count,
  if◌then◌else◌, arith,
}
use be_modami_chat_service.Prelude.Int.{pos}
use be_modami_chat_service.Text.{bytes, ◌==◌, contains}
use be_modami_chat_service.Result.{sentinel, not_found}
use be_modami_chat_service.Port.{whole, fields, text}
use be_modami_chat_service.Domain.Message.{Message, message_type_text}
use be_modami_chat_service.Domain.Cursor.{PageRequest}
use be_modami_chat_service.Domain.Conversation.{
  has_member, is_admin, participant_ids, conversation_type_direct, joined, role_member,
}
use be_modami_chat_service.Service.SendMessage.{SendMessageCommand, send_message}
use be_modami_chat_service.Service.SendMessage.Broadcast.{
  IsMessageOf, Announced, send_persists_first, send_counts_others,
}
use be_modami_chat_service.Service.CreateConversation.{
  CreateDirectChatCommand, CreateGroupCommand, create_direct_chat, create_group, add_participant_by,
  remove_participant_by,
}
use be_modami_chat_service.Service.CreateConversation.Outcomes.{
  Between, create_direct_chat_ends, create_group_ends, add_participant_ends,
  remove_participant_ends,
}
use be_modami_chat_service.Service.ChatService.{
  edit_message, delete_message, mark_as_read, add_reaction_by,
}
use be_modami_chat_service.Service.ChatService.Changes.{May, edit_message_ends, delete_message_ends}
use be_modami_chat_service.Service.ChatService.Access.{mark_as_read_ends, add_reaction_ends}
use be_modami_chat_service.Service.Rules.{Ends}
use be_modami_chat_service.Service.Traced
use be_modami_chat_service.Service.Traced.{
  traced, is_persisted, is_increment, is_unread, persists_first, Untouched, Did, Tried,
  stores_first, stores_message, is_write, changes_roster,
}
use be_modami_chat_service.Tests.{ann, bob, cy, thumb, hello, team, service, no_chat}

abbrev greeting : SendMessageCommand
greeting = record {
  conversation_id = bytes "c1";
  sender_id = ann;
  type = message_type_text;
  content = record { text = bytes "hi"; mentions = [] };
  media = none;
  reply_to = none;
  forwarded_from = none;
}

send_persists_first_example :
    Ends
      (λ msg (w', t).
        (stores_first t ≡ true)
        × (any stores_message t ≡ true)
        × ((m : Message) × IsMessageOf greeting m × Did (Traced.create_message m) t)
        × Announced (bytes "c1") msg t)
      (λ e (w', t). Untouched t × (any is_unread t ≡ false))
      (send_message (traced (service team no_chat)) greeting (0, []))
send_persists_first_example = send_persists_first (service team no_chat) greeting 0

send_counts_others_example :
    Ends
      (λ msg (w', t).
        (has_member team ann ≡ true)
        × ((team.settings.only_admins_can_send && not (is_admin team ann)) ≡ false)
        × (any (is_increment bob (bytes "c1")) t ≡ (has_member team bob && not (ann == bob)))
        × (count (is_increment bob (bytes "c1")) t
            ≡ (if ann == bob then 0 else count (λ u. u == bob) (participant_ids team))))
      (λ e (w', t). any is_unread t ≡ false)
      (send_message (traced (service team no_chat)) greeting (0, []))
send_counts_others_example =
    send_counts_others (service team no_chat) greeting 0 0 0 team bob refl refl

abbrev two : CreateDirectChatCommand
two = record { user_id1 = ann; user_id2 = bob }

create_direct_chat_ends_example :
    Ends
      (λ conv (w', t).
        (ann ≢ bob) × Between ann bob conv cy × Did (Traced.create_conversation conv) t)
      (λ x (w', t). Untouched t × ((ann ≢ bob) ⊎ ((t ≡ []) × (w' ≡ 0))))
      (create_direct_chat (traced (service team no_chat)) two (0, []))
create_direct_chat_ends_example =
    create_direct_chat_ends (service team no_chat) two cy 0 0 (sentinel not_found) refl

abbrev all_three : CreateGroupCommand
all_three = record { name = bytes "all"; created_by = ann; member_ids = bob ∷ cy ∷ [] }

create_group_ends_example :
    Ends
      (λ conv (w', t).
        (has_member conv cy ≡ (ann == cy || contains (bob ∷ cy ∷ []) cy))
        × (is_admin conv cy ≡ (ann == cy))
        × Did (Traced.create_conversation conv) t)
      (λ x (w', t). Untouched t)
      (create_group (traced (service team no_chat)) all_three (0, []))
create_group_ends_example = create_group_ends (service team no_chat) all_three cy 0

add_participant_ends_example :
    Ends
      (λ u (w', t).
        (is_admin team ann ≡ true)
        × ((team.type == conversation_type_direct) ≡ false)
        × (has_member team cy ≡ false)
        × (suc (length team.participants) ≤ 50)
        × Did (Traced.add_participant (bytes "c1") (joined cy role_member 0)) t)
      (λ e (w', t).
        (any changes_roster t ≡ false)
        × Untouched t
        × ((any is_write t ≡ false)
            ⊎ ((is_admin team ann ≡ true)
                × ((team.type == conversation_type_direct) ≡ false)
                × (has_member team cy ≡ false)
                × (suc (length team.participants) ≤ 50))))
      (add_participant_by (traced (service team no_chat)) (bytes "c1") ann cy (0, []))
add_participant_ends_example =
    add_participant_ends (service team no_chat) (bytes "c1") ann cy 0 0 team refl

remove_participant_ends_example :
    Ends
      (λ u (w', t).
        ((ann ≡ bob) ⊎ (is_admin team ann ≡ true))
        × Did (Traced.remove_participant (bytes "c1") bob) t)
      (λ e (w', t).
        Untouched t × ((any is_write t ≡ false) ⊎ ((ann ≡ bob) ⊎ (is_admin team ann ≡ true))))
      (remove_participant_by (traced (service team no_chat)) (bytes "c1") ann bob (0, []))
remove_participant_ends_example =
    remove_participant_ends (service team no_chat) (bytes "c1") ann bob 0 0 team refl

edit_message_ends_example :
    Ends
      (λ msg' (w', t).
        May hello ann (bytes "bye")
        × (msg' ≡ record hello {
          content = record (hello.content) { text = bytes "bye" };
          edited = true;
        })
        × (persists_first t ≡ true)
        × Did (Traced.update_message msg') t
        × Tried (Traced.kafka (Traced.message_updated msg')) t
        × Tried (Traced.realtime (bytes "c1") "message.updated" (whole msg')) t)
      (λ e (w', t). Untouched t)
      (edit_message (traced (service team no_chat)) (bytes "m1") ann (bytes "bye") (0, []))
edit_message_ends_example =
    edit_message_ends (service team no_chat) (bytes "m1") ann (bytes "bye") 0 0 hello refl

delete_message_ends_example :
    Ends
      (λ u (w', t).
        (ann ≡ ann)
        × (persists_first t ≡ true)
        × Did
            (Traced.update_message (record hello {
              deleted = true;
              content = record { text = []; mentions = [] };
              media = none;
            }))
            t
        × Tried (Traced.kafka (Traced.message_deleted (bytes "c1") (bytes "m1") ann)) t
        × Tried
            (Traced.realtime (bytes "c1") "message.deleted" (
              fields
                (("message_id", text (bytes "m1")) ∷ ("conversation_id", text (bytes "c1")) ∷ [])))
            t)
      (λ e (w', t). Untouched t)
      (delete_message (traced (service team no_chat)) (bytes "m1") ann (0, []))
delete_message_ends_example =
    delete_message_ends (service team no_chat) (bytes "m1") ann 0 0 hello refl

ann-May : May hello ann []
ann-May = (refl, refl, refl, omega arith)

mark_as_read_ends_example :
    Ends
      (λ u (w', t).
        (has_member team bob ≡ true)
        × (hello.conversation_id ≡ bytes "c1")
        × (persists_first t ≡ true)
        × Did (Traced.update_read_cursor (bytes "c1") bob (bytes "m1") 0) t
        × Tried (Traced.clear_unread bob (bytes "c1")) t
        × Tried (Traced.kafka (Traced.read_receipt (bytes "c1") bob (bytes "m1"))) t
        × Tried
            (Traced.realtime
              (bytes "c1")
              "read_receipt"
              (fields (("user_id", text bob) ∷ ("message_id", text (bytes "m1")) ∷ [])))
            t)
      (λ e (w', t). Untouched t × (any is_unread t ≡ false))
      (mark_as_read (traced (service team no_chat)) (bytes "c1") bob (bytes "m1") (0, []))
mark_as_read_ends_example =
    mark_as_read_ends (service team no_chat) (bytes "c1") bob (bytes "m1") 0 0 0 team hello refl
      refl

add_reaction_ends_example :
    Ends
      (λ u (w', t).
        (has_member team bob ≡ true)
        × (persists_first t ≡ true)
        × Did (Traced.add_reaction (bytes "m1") thumb bob) t
        × Tried (Traced.kafka (Traced.reaction_added (bytes "c1") (bytes "m1") thumb bob)) t
        × Tried
            (Traced.realtime (bytes "c1") "reaction.added" (
              fields (
                ("message_id", text (bytes "m1"))
                ∷ ("user_id", text bob)
                ∷ ("emoji", text thumb)
                ∷ [])))
            t)
      (λ e (w', t). Untouched t)
      (add_reaction_by (traced (service team no_chat)) (bytes "m1") bob thumb (0, []))
add_reaction_ends_example =
    add_reaction_ends (service team no_chat) (bytes "m1") bob thumb 0 0 0 team hello refl refl

abbrev first_ten : PageRequest
first_ten = record { cursor = none; limit = pos 10 }

cy_is_no_member : has_member team cy ≡ false
unfolding has_member ◌==◌
cy_is_no_member = refl
