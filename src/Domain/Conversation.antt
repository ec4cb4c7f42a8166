-- ===== src/Domain/Conversation.antt =====
-- internal/domain/conversation.go
pub mod Members
pub mod Groups
pub mod Direct
use mathlib.Core.Option
use be_modami_chat_service.Prelude.{
  ℕ, suc, ◌+◌, Bool, true, false, ◌&&◌, List, [], ◌∷◌, ◌++◌, map, Option, none, some, leb, ltb,
  if◌then◌else◌, length, any, take, Time,
}
use be_modami_chat_service.Prelude.Sort.{sort_slice}
use be_modami_chat_service.Text.{GoString, bytes, ◌==◌, str_lt, is_empty, contains}
use be_modami_chat_service.Result.{
  Result, ok, err, sentinel, validation, already_member, group_full, not_chat_member,
}
use be_modami_chat_service.Domain.Message.{Message, MessageType}

-- Go string types, as MessageType.
abbrev pub ConversationType : Type 0
ConversationType = GoString

abbrev pub conversation_type_direct : ConversationType
conversation_type_direct = bytes "direct"

abbrev pub conversation_type_group : ConversationType
conversation_type_group = bytes "group"

abbrev pub ParticipantRole : Type 0
ParticipantRole = GoString

abbrev pub role_member : ParticipantRole
role_member = bytes "member"

abbrev pub role_admin : ParticipantRole
role_admin = bytes "admin"

pub record Participant : Type 0 where
  pub user_id : GoString
  pub role : ParticipantRole
  pub joined_at : Time
  pub last_read_message_id : GoString
  pub last_read_at : Time
  pub notifications_muted_until : Option Time

pub record LastMessage : Type 0 where
  pub message_id : GoString
  pub sender_id : GoString
  pub content_preview : GoString
  pub type : MessageType
  pub sent_at : Time

pub record ConversationSettings : Type 0 where
  pub only_admins_can_send : Bool

pub record Conversation : Type 0 where
  pub id : GoString
  pub type : ConversationType
  pub name : GoString
  pub avatar_url : GoString
  pub created_by : GoString
  pub participants : List Participant
  pub last_message : Option LastMessage
  pub settings : ConversationSettings
  pub created_at : Time
  pub updated_at : Time

abbrev pub max_group_participants : ℕ
max_group_participants = 50

abbrev pub max_conversation_name : ℕ
max_conversation_name = 100

-- A participant literal that leaves the other fields at Go's zero values.
abbrev pub joined : GoString → ParticipantRole → Time → Participant
joined user_id role now = record {
  user_id = user_id;
  role = role;
  joined_at = now;
  last_read_message_id = [];
  last_read_at = 0;
  notifications_muted_until = none;
}

abbrev pub by_user_id : Participant → Participant → Bool
by_user_id p q = str_lt p.user_id q.user_id

-- `now` is the call of time.Now.
unfoldable pub new_direct_conversation :
    (id user_id1 user_id2 : GoString) (now : Time) → Conversation
new_direct_conversation id user_id1 user_id2 now = record {
  id = id;
  type = conversation_type_direct;
  name = [];
  avatar_url = [];
  created_by = user_id1;
  participants =
      sort_slice by_user_id
        (joined user_id1 role_member now ∷ joined user_id2 role_member now ∷ []);
  last_message = none;
  settings = record { only_admins_can_send = false };
  created_at = now;
  updated_at = now;
}

-- The loop over `memberIDs`; `seen` lists the keys of the map.
unfoldable pub add_members : Time → (seen : List GoString) → List GoString → List Participant
add_members now seen [] = []
add_members now seen (uid ∷ ids) =
    let fresh = joined uid role_member now ∷ add_members now (uid ∷ seen) ids in
    let again = add_members now seen ids in if contains seen uid then again else fresh

unfoldable pub new_group_conversation :
    (id name created_by : GoString) (member_ids : List GoString) (now : Time) → Result Conversation
new_group_conversation id name created_by member_ids now =
    if is_empty name
    then err (validation "group name is required")
    else if ltb max_conversation_name (length name)
    then err (validation "group name exceeds maximum length")
    else if ltb (length member_ids) 2
    then err (validation "group must have at least 2 members")
    else if ltb max_group_participants (length member_ids + 1)
    then err (sentinel group_full)
    else ok (record {
      id = id;
      type = conversation_type_group;
      name = name;
      avatar_url = [];
      created_by = created_by;
      participants =
          joined created_by role_admin now ∷ add_members now (created_by ∷ []) member_ids;
      last_message = none;
      settings = record { only_admins_can_send = false };
      created_at = now;
      updated_at = now;
    })

abbrev pub is_user : GoString → Participant → Bool
is_user user_id p = p.user_id == user_id

unfoldable pub has_member : Conversation → GoString → Bool
has_member c user_id = any (is_user user_id) c.participants

abbrev pub is_admin_user : GoString → Participant → Bool
is_admin_user user_id p = p.user_id == user_id && p.role == role_admin

unfoldable pub is_admin : Conversation → GoString → Bool
is_admin c user_id = any (is_admin_user user_id) c.participants

-- `joined_now` and `now` are the two calls of time.Now. The error comes with the unchanged receiver.
unfoldable pub add_participant :
    Conversation → GoString → (joined_now now : Time) → Result (Unit {0}) × Conversation
unfolding has_member
add_participant c user_id joined_now now =
    if c.type == conversation_type_direct
    then (err (validation "cannot add participants to direct conversations"), c)
    else if has_member c user_id
    then (err (sentinel already_member), c)
    else if leb max_group_participants (length c.participants)
    then (err (sentinel group_full), c)
    else (
      ok tt,
      record c {
        participants = c.participants ++ joined user_id role_member joined_now ∷ [];
        updated_at = now;
      },
    )

-- The loop of RemoveParticipant; `none` where it finds nobody.
unfoldable pub without_user : GoString → List Participant → Option (List Participant)
without_user user_id [] = none
without_user user_id (p ∷ ps) =
    let later = Option.map (λ rest. p ∷ rest) (without_user user_id ps) in
    if p.user_id == user_id then some ps else later

unfoldable pub remove_participant :
    Conversation → GoString → (now : Time) → Result (Unit {0}) × Conversation
remove_participant c user_id now =
    if c.type == conversation_type_direct
    then (err (validation "cannot remove participants from direct conversations"), c)
    else elim (without_user user_id c.participants) [
      | some rest ↦ (ok tt, record c { participants = rest; updated_at = now })
      | none ↦ (err (sentinel not_chat_member), c)
    ]

-- The pointer into the slice that GetParticipant returns is the participant here.
unfoldable pub find_participant : GoString → List Participant → Option Participant
find_participant user_id [] = none
find_participant user_id (p ∷ ps) =
    let later = find_participant user_id ps in if p.user_id == user_id then some p else later

unfoldable pub get_participant : Conversation → GoString → Option Participant
unfolding find_participant
get_participant c user_id = find_participant user_id c.participants

unfoldable pub update_last_message : Conversation → Message → Conversation
update_last_message c msg =
    let preview =
      if ltb 100 (length msg.content.text) then take 100 msg.content.text else msg.content.text in
    record c {
      last_message = some (record {
        message_id = msg.id;
        sender_id = msg.sender_id;
        content_preview = preview;
        type = msg.type;
        sent_at = msg.created_at;
      });
      updated_at = msg.created_at;
    }

abbrev pub user_id_of : Participant → GoString
user_id_of p = p.user_id

unfoldable pub participant_ids : Conversation → List GoString
participant_ids c = map user_id_of c.participants

unfoldable pub direct_chat_key : (user_id1 user_id2 : GoString) → GoString × GoString
direct_chat_key user_id1 user_id2 =
    if str_lt user_id1 user_id2 then (user_id1, user_id2) else (user_id2, user_id1)
