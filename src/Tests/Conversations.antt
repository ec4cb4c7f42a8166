-- ===== src/Tests/Conversations.antt =====
-- The theorems on conversations at concrete data.
use be_modami_chat_service.Prelude.{
  ◌≡◌, ◌≢◌, refl, ◌||◌, ◌&&◌, not, false, List, [], ◌∷◌, arith, ltb, length,
}
use be_modami_chat_service.Text.{GoString, bytes, ◌==◌, contains}
use be_modami_chat_service.Text.Laws.{eq_iff}
use be_modami_chat_service.Result.{Result, ok, err, is_ok}
use be_modami_chat_service.Domain.Conversation.{
  Conversation, add_participant, remove_participant, has_member, is_admin, new_group_conversation,
  conversation_type_direct, max_group_participants,
}
use be_modami_chat_service.Domain.Conversation.Members.{
  IsRoster, has_member-add_participant, has_member-remove_participant,
}
use be_modami_chat_service.Domain.Conversation.Groups.{new_group_members}
use be_modami_chat_service.Tests.{ann, bob, cy, team}

team-IsRoster : IsRoster team.participants
unfolding ◌==◌
team-IsRoster = record { distinct = (refl, (refl, tt)); few = omega arith }

ann_differs : (ann == bob) ≡ false
unfolding ◌==◌
ann_differs = refl

pub ann_is_not_bob : ann ≢ bob
ann_is_not_bob h = cc (ann_differs, (eq_iff ann bob).1 h)

cy_joins : (add_participant team cy 7 8).0 ≡ ok tt
unfolding add_participant has_member ◌==◌
cy_joins = refl

has_member-add_participant_example :
    (is_ok (add_participant team cy 7 8).0 ≡ (
      not (team.type == conversation_type_direct)
      && (not (has_member team cy) && ltb (length team.participants) max_group_participants)))
    × (has_member (add_participant team cy 7 8).1 cy
        ≡ (has_member team cy || (is_ok (add_participant team cy 7 8).0 && cy == cy)))
    × (is_admin (add_participant team cy 7 8).1 cy ≡ is_admin team cy)
has_member-add_participant_example = has_member-add_participant team cy cy 7 8

has_member-remove_participant_example :
    (is_ok (remove_participant team bob 9).0
      ≡ (not (team.type == conversation_type_direct) && has_member team bob))
    × (has_member (remove_participant team bob 9).1 bob
        ≡ (has_member team bob && not (is_ok (remove_participant team bob 9).0 && bob == bob)))
    × IsRoster (remove_participant team bob 9).1.participants
has_member-remove_participant_example = has_member-remove_participant team bob bob 9 team-IsRoster

abbrev others : List GoString
others = bob ∷ cy ∷ []

abbrev or_else : Result Conversation → Conversation → Conversation
or_else (ok c) d = c
or_else (err e) d = d

abbrev group : Conversation
group = or_else (new_group_conversation (bytes "g") (bytes "all") ann others 3) team

group_made : new_group_conversation (bytes "g") (bytes "all") ann others 3 ≡ ok group
unfolding new_group_conversation
group_made = refl

new_group_members_example :
    (has_member group cy ≡ (ann == cy || contains others cy))
    × (is_admin group cy ≡ (ann == cy))
    × IsRoster group.participants
new_group_members_example =
    new_group_members (bytes "g") (bytes "all") ann others 3 group cy group_made
