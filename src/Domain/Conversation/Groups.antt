-- ===== src/Domain/Conversation/Groups.antt =====
-- NewGroupConversation: who is in a new group, and who is its admin.
use be_modami_chat_service.Prelude.{
  ◌+◌, ◌≡◌, ◌∙◌, refl, sym, ◌≤◌, false, not, ◌&&◌, ◌||◌, List, [], ◌∷◌, none, arith, map, length,
  any, leb, Time,
}
use be_modami_chat_service.Text.{GoString, ◌==◌, contains}
use be_modami_chat_service.Text.Laws.{eq_iff, eq_refl}
use be_modami_chat_service.Text.Sets.{Distinct}
use be_modami_chat_service.Result.{ok, is_ok}
use be_modami_chat_service.Domain.Conversation.{
  Conversation, conversation_type_group, role_admin, max_group_participants, max_conversation_name,
  joined, add_members, new_group_conversation, is_user, has_member, is_admin_user, is_admin,
  user_id_of,
}
use be_modami_chat_service.Domain.Conversation.Members.{IsRoster, any-is_user, member_is_no_admin}

-- The participants that the loop makes are the fresh ones among `ids`, each once.
add_members_lem :
    (now : Time) (seen ids : List GoString) (v : GoString)
    → (any (is_user v) (add_members now seen ids) ≡ (contains ids v && not (contains seen v)))
      × (any (is_admin_user v) (add_members now seen ids) ≡ false)
      × (length (add_members now seen ids) ≤ length ids)
unfolding add_members
add_members_lem now seen [] v = (refl, refl, omega arith)
add_members_lem now seen (uid ∷ ids) v = ground (
  arith,
  add_members_lem now seen ids v,
  add_members_lem now (uid ∷ seen) ids v,
  eq_iff uid v,
  member_is_no_admin,
)

add_members-Distinct :
    (now : Time) (seen ids : List GoString) → Distinct (map user_id_of (add_members now seen ids))
unfolding add_members
add_members-Distinct now seen [] = tt
add_members-Distinct now seen (uid ∷ ids) = ground (
  arith,
  add_members-Distinct now seen ids,
  add_members-Distinct now (uid ∷ seen) ids,
  add_members_lem now (uid ∷ seen) ids uid,
  any-is_user (add_members now (uid ∷ seen) ids) uid,
  eq_refl uid,
)

creator_is_seen :
    (now : Time) (creator : GoString) (ids : List GoString)
    → contains (map user_id_of (add_members now (creator ∷ []) ids)) creator ≡ false
creator_is_seen now creator ids =
    sym (any-is_user (add_members now (creator ∷ []) ids) creator)
    ∙ ground (arith, add_members_lem now (creator ∷ []) ids creator, eq_refl creator)

abbrev group_of : GoString → GoString → GoString → List GoString → Time → Conversation
group_of id name creator ids now = record {
  id = id;
  type = conversation_type_group;
  name = name;
  avatar_url = [];
  created_by = creator;
  participants = joined creator role_admin now ∷ add_members now (creator ∷ []) ids;
  last_message = none;
  settings = record { only_admins_can_send = false };
  created_at = now;
  updated_at = now;
}

new_group-ok :
    (id name creator : GoString) (ids : List GoString) (now : Time) {g : Conversation}
    → new_group_conversation id name creator ids now ≡ ok g
    → (g ≡ group_of id name creator ids now) × (length ids + 1 ≤ max_group_participants)
unfolding new_group_conversation
new_group-ok id name creator ids now h = ground arith

-- A new group has its creator and the listed members, and nobody else; each takes part once, they
-- are at most 50, and the creator alone is an admin.
pub new_group_members :
    (id name creator : GoString) (ids : List GoString) (now : Time) (g : Conversation)
    (v : GoString)
    → new_group_conversation id name creator ids now ≡ ok g
    → (has_member g v ≡ (creator == v || contains ids v))
      × (is_admin g v ≡ (creator == v))
      × IsRoster g.participants
unfolding has_member is_admin
new_group_members id name creator ids now g v h =
    let (shape, few) = new_group-ok id name creator ids now h in
    let (members, admins, size) = add_members_lem now (creator ∷ []) ids v in
    rw shape (
      ground (arith, eq_refl role_admin),
      ground (arith, eq_refl role_admin),
      record {
        distinct = (creator_is_seen now creator ids, add_members-Distinct now (creator ∷ []) ids);
        few = ground arith;
      },
    )

-- A group is made exactly from a name of 1 to 100 bytes and a list of 2 to 49 ids.
new_group-is_ok :
    (id name creator : GoString) (ids : List GoString) (now : Time)
    → is_ok (new_group_conversation id name creator ids now) ≡ (
        leb 1 (length name)
        && (leb (length name) max_conversation_name && (leb 2 (length ids) && leb (length ids) 49)))
unfolding new_group_conversation
new_group-is_ok id [] creator ids now = refl
new_group-is_ok id (b ∷ name) creator ids now = ground arith
