-- ===== src/Service/CreateConversation.antt =====
-- internal/service/create_conversation.go
pub mod Outcomes
use be_modami_chat_service.Prelude.{◌||◌, List, if◌then◌else◌}
use be_modami_chat_service.Text.{GoString, ◌==◌}
use be_modami_chat_service.Exec.{
  Exec, pure, raise, lift, total, wrap, require, continue, ◌>>=◌, ◌>>◌,
}
use be_modami_chat_service.Result.{Result, ok, err, Error, validation, forbidden}
use be_modami_chat_service.Domain.Conversation.{
  Conversation, Participant, role_member, joined, new_direct_conversation, new_group_conversation,
  is_admin, add_participant,
}
use be_modami_chat_service.Service.Defs.{ChatService}

pub record CreateDirectChatCommand : Type 0 where
  pub user_id1 : GoString
  pub user_id2 : GoString

pub record CreateGroupCommand : Type 0 where
  pub name : GoString
  pub created_by : GoString
  pub member_ids : List GoString

module _ {W : Type 0} (s : ChatService W) where
  -- What CreateDirectChat does where it finds no chat, whatever the error of the search.
  unfoldable pub open_direct_chat : CreateDirectChatCommand → Exec W Conversation
  open_direct_chat cmd = do
    id ← total s.id_gen.new_id
    now ← total s.now
    let conv = new_direct_conversation id cmd.user_id1 cmd.user_id2 now
    wrap "create direct chat" (s.conv_repo.create conv)
    pure conv

  abbrev pub existing_or_new :
      CreateDirectChatCommand → Result Conversation × W → Result Conversation × W
  existing_or_new cmd (ok existing, w) = (ok existing, w)
  existing_or_new cmd (err e, w) = open_direct_chat cmd w

  unfoldable pub create_direct_chat : CreateDirectChatCommand → Exec W Conversation
  unfolding open_direct_chat
  create_direct_chat cmd =
      if cmd.user_id1 == cmd.user_id2
      then raise (validation "cannot create conversation with yourself")
      else λ w. existing_or_new cmd (s.conv_repo.find_direct_chat cmd.user_id1 cmd.user_id2 w)

  unfoldable pub create_group : CreateGroupCommand → Exec W Conversation
  create_group cmd = do
    id ← total s.id_gen.new_id
    now ← total s.now
    conv ← lift (new_group_conversation id cmd.name cmd.created_by cmd.member_ids now)
    wrap "create group" (s.conv_repo.create conv)
    pure conv

  -- The two calls of time.Now are those of Conversation.AddParticipant, whose result is dropped.
  unfoldable pub add_participant_by :
      (conversation_id requester_id user_id : GoString) → Exec W (Unit {0})
  add_participant_by conversation_id requester_id user_id = do
    conv ← wrap "find conversation" (s.conv_repo.find_by_id conversation_id)
    require (is_admin conv requester_id) forbidden
    joined_now ← total s.now
    now ← total s.now
    lift (add_participant conv user_id joined_now now).0
    s.conv_repo.add_participant conversation_id (joined user_id role_member 0)

  unfoldable pub remove_participant_by :
      (conversation_id requester_id user_id : GoString) → Exec W (Unit {0})
  remove_participant_by conversation_id requester_id user_id = do
    conv ← wrap "find conversation" (s.conv_repo.find_by_id conversation_id)
    require (requester_id == user_id || is_admin conv requester_id) forbidden
    s.conv_repo.remove_participant conversation_id user_id
