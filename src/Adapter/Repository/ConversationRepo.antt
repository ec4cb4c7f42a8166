-- ===== src/Adapter/Repository/ConversationRepo.antt =====
-- internal/adapter/repository/conversation_repo.go. The text of an error
-- leaves out ids.
pub mod Keys
pub mod Rows
pub mod Order
pub mod Pages
pub mod Claims
pub mod Indexes
use mathlib.Core.Option
use be_modami_chat_service.Prelude.{
  ℕ, suc, ◌+◌, ◌-◌, Bool, true, false, not, ◌&&◌, ◌||◌, List, [], ◌∷◌, ◌++◌, map, Option, none,
  some, ltb, eqb, if◌then◌else◌, length, take, drop, keep, Time,
}
use be_modami_chat_service.Prelude.Int.{ℤ}
use be_modami_chat_service.Prelude.Sort.{sort_slice}
use be_modami_chat_service.Text.{GoString, bytes, ◌==◌, str_lt, is_empty, contains}
use be_modami_chat_service.Result.{
  Error, Result, ok, err, is_sentinel, sentinel, wrapped, not_found, duplicate_conversation,
}
use be_modami_chat_service.Exec.{
  Exec, pure, raise, lift, total, wrap, require, continue, ◌>>=◌, ◌>>◌,
}
use be_modami_chat_service.Domain.Cursor.{Cursor, PageRequest, PageResponse}
use be_modami_chat_service.Domain.Conversation.{
  Conversation, Participant, LastMessage, conversation_type_direct, direct_chat_key, user_id_of,
}
use be_modami_chat_service.Adapter.Repository.Session.{Session, ConversationRow}
use be_modami_chat_service.Adapter.Repository.Codec.{Codec}
use be_modami_chat_service.Adapter.Repository.Paging.{last_of, next_of, cursor_lt, older}
use be_modami_chat_service.Adapter.Repository.MessageRepo.{scanned, page_limit}
use be_modami_chat_service.Adapter.Repository.ConversationRows.{
  build_conversation, conversation_row, item_or_nil, items_or_empty, marshal_last_message,
  marshal_participants, unmarshal_last_message, unmarshal_participants,
}

unfoldable pub direct_key : (user_id1 user_id2 : GoString) → GoString
direct_key user_id1 user_id2 =
    let (u1, u2) = direct_chat_key user_id1 user_id2 in u1 ++ bytes ":" ++ u2

-- The order of FindByUser: updated_at DESC, then id DESC.
unfoldable pub newer : Conversation → Conversation → Bool
newer a b =
    if eqb a.updated_at b.updated_at then str_lt b.id a.id else ltb b.updated_at a.updated_at

abbrev pub conversation_cursor : Conversation → Cursor
conversation_cursor c = record { created_at = c.updated_at; id = c.id }

-- The loop over the sorted conversations: the index of the first one older than the cursor.
unfoldable pub first_older : Cursor → List Conversation → ℕ
first_older cursor [] = 0
first_older cursor (c ∷ cs) =
    let later = suc (first_older cursor cs) in
    if older conversation_cursor cursor c then 0 else later

abbrev pub start_of : Option Cursor → List Conversation → ℕ
start_of none convs = 0
start_of (some cursor) convs = first_older cursor convs

-- What FindByUser returns of the sorted conversations.
unfoldable pub slice_page : PageRequest → List Conversation → PageResponse Conversation
slice_page page convs =
    let start = start_of page.cursor convs in
    let end' = start + page_limit page.limit in
    let has_more = ltb end' (length convs) in
    let stop = if ltb (length convs) end' then length convs else end' in
    let items = take (stop - start) (drop start convs) in
    record {
      items = items;
      next_cursor = if has_more then next_of conversation_cursor (last_of items) else none;
      has_more = has_more;
    }

-- The first participant with the id gets the new read cursor; `none` where there is none.
unfoldable pub read_up_to :
    (user_id message_id : GoString) → Time → List Participant → Option (List Participant)
read_up_to user_id message_id read_at [] = none
read_up_to user_id message_id read_at (p ∷ ps) =
    let later = Option.map (λ qs. p ∷ qs) (read_up_to user_id message_id read_at ps) in
    if p.user_id == user_id
    then some (record p { last_read_message_id = message_id; last_read_at = read_at } ∷ ps)
    else later

-- A loop that stops at the first error.
unfoldable pub for_each : {W A : Type 0} → (A → Exec W (Unit {0})) → List A → Exec W (Unit {0})
for_each f [] w = (ok tt, w)
for_each f (x ∷ xs) w = continue (λ u. for_each f xs) (f x w)

-- The keys that the other map does not have.
abbrev pub missing_from : List GoString → List GoString → List GoString
missing_from ids set = keep (λ uid. not (contains set uid)) ids

-- `range` is the order in which Go visits the keys of a map, which the language leaves open, given
-- the keys as they were written.
module _ {W : Type 0} (session : Session W) (participants_json : Codec (List Participant))
    (last_message_json : Codec LastMessage) where
  unfoldable pub insert_participant_indexes :
      (conversation_id user_id : GoString) → Exec W (Unit {0})
  insert_participant_indexes conversation_id user_id = do
    wrap "insert user_conversations" (session.insert_user_conversation user_id conversation_id)
    wrap "insert conversation_participants"
        (session.insert_conversation_participant conversation_id user_id)

  unfoldable pub delete_participant_indexes :
      (conversation_id user_id : GoString) → Exec W (Unit {0})
  delete_participant_indexes conversation_id user_id = do
    wrap "delete user_conversations" (session.delete_user_conversation user_id conversation_id)
    wrap "delete conversation_participants"
        (session.delete_conversation_participant conversation_id user_id)

  abbrev pub get_participant_ids : (conversation_id : GoString) → Exec W (List GoString)
  get_participant_ids conversation_id =
      wrap "get participant ids" (session.select_participants conversation_id)

  -- The atomic claim of the lookup key, by a direct conversation of two participants only.
  abbrev pub claim_key : Conversation → Exec W (Unit {0})
  claim_key conv = elim conv.participants [
    | (p ∷ q ∷ []) ↦
        (if conv.type == conversation_type_direct
          then (wrap "insert direct conversation index"
                (session.insert_direct (direct_key p.user_id q.user_id) conv.id)
              >>= λ applied. require applied duplicate_conversation)
          else pure tt)
    | _ ↦ pure tt
  ]

  unfoldable pub create : Conversation → Exec W (Unit {0})
  create conv = do
    claim_key conv
    wrap "insert conversation"
        (session.insert_conversation (conversation_row participants_json last_message_json conv))
    for_each (λ p. insert_participant_indexes conv.id p.user_id) conv.participants

  unfoldable pub find_by_id : GoString → Exec W Conversation
  find_by_id id = do
    row ← scanned "find conversation" (session.select_conversation id)
    pure (build_conversation participants_json last_message_json (record row { id = id }))

  -- The outcome of FindByID in the loop of FindByUser, and the rest of the loop.
  abbrev pub add_found :
      Exec W (List Conversation) → Result Conversation × W → Result (List Conversation) × W
  add_found rest (ok conv, w) = (rest >>= λ convs. pure (conv ∷ convs)) w
  add_found rest (err e, w) =
      if is_sentinel e not_found then rest w else (err (wrapped "fetch conversation" e), w)

  unfoldable pub load : List GoString → Exec W (List Conversation)
  load [] w = (ok [], w)
  load (cid ∷ cids) w = add_found (load cids) (find_by_id cid w)

  abbrev pub page_of_ids : PageRequest → List GoString → Exec W (PageResponse Conversation)
  page_of_ids page [] = pure (record { items = []; next_cursor = none; has_more = false })
  page_of_ids page (cid ∷ cids) = do
    convs ← load (cid ∷ cids)
    pure (slice_page page (sort_slice newer convs))

  unfoldable pub find_by_user :
      (user_id : GoString) → PageRequest → Exec W (PageResponse Conversation)
  find_by_user user_id page = do
    conv_ids ← wrap "list user conversations" (session.select_user_conversations user_id)
    page_of_ids page conv_ids

  unfoldable pub find_direct_chat : (user_id1 user_id2 : GoString) → Exec W Conversation
  find_direct_chat user_id1 user_id2 = do
    conv_id ← scanned "find direct chat" (session.select_direct (direct_key user_id1 user_id2))
    find_by_id conv_id

  unfoldable pub update : (range : List GoString → List GoString) → Conversation → Exec W (Unit {0})
  update range conv = do
    let new_set = map user_id_of conv.participants
    old_set ← get_participant_ids conv.id
    wrap "update conversation"
        (session.update_conversation (conversation_row participants_json last_message_json conv))
    for_each (insert_participant_indexes conv.id) (missing_from (range new_set) old_set)
    for_each (delete_participant_indexes conv.id) (missing_from (range old_set) new_set)

  unfoldable pub update_last_message :
      (conversation_id : GoString) → LastMessage → Exec W (Unit {0})
  update_last_message conversation_id last_msg =
      session.update_last_message (marshal_last_message last_message_json (some last_msg))
        last_msg.sent_at conversation_id

  abbrev pub write_read :
      (conversation_id : GoString) → Option (List Participant) → Exec W (Unit {0})
  write_read conversation_id none = raise (sentinel not_found)
  write_read conversation_id (some ps) =
      session.update_participants (marshal_participants participants_json ps) conversation_id

  unfoldable pub update_read_cursor :
      (conversation_id user_id message_id : GoString) → (read_at : Time) → Exec W (Unit {0})
  update_read_cursor conversation_id user_id message_id read_at = do
    conv ← find_by_id conversation_id
    write_read conversation_id (read_up_to user_id message_id read_at conv.participants)

  unfoldable pub add_participant :
      (now : W → Time × W) → (conversation_id : GoString) → Participant → Exec W (Unit {0})
  add_participant now conversation_id participant = do
    conv ← find_by_id conversation_id
    updated_at ← total now
    wrap "add participant" (
        session.update_participants_at
          (marshal_participants participants_json (conv.participants ++ participant ∷ []))
          updated_at conversation_id)
    insert_participant_indexes conversation_id participant.user_id

  unfoldable pub remove_participant :
      (now : W → Time × W) → (conversation_id user_id : GoString) → Exec W (Unit {0})
  remove_participant now conversation_id user_id = do
    conv ← find_by_id conversation_id
    updated_at ← total now
    wrap "remove participant" (
        session.update_participants_at
          (marshal_participants participants_json
            (keep (λ p. not (p.user_id == user_id)) conv.participants))
          updated_at conversation_id)
    delete_participant_indexes conversation_id user_id
