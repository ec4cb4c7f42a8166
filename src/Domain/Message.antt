-- ===== src/Domain/Message.antt =====
-- internal/domain/message.go
pub mod Reactions
pub mod Reacted
pub mod Removal
pub mod Validation
use mathlib.Core.Option
use be_modami_chat_service.Prelude.{
  ℕ, Bool, true, false, not, ◌&&◌, List, [], ◌∷◌, ◌++◌, Option, none, some, leb, ltb, if◌then◌else◌,
  length, any, Time,
}
use be_modami_chat_service.Prelude.Int.{ℤ}
use be_modami_chat_service.Text.{GoString, bytes, ◌==◌, is_empty, contains}
use be_modami_chat_service.Result.{Result, ok, err, sentinel, validation, reaction_limit_reached}

-- A Go string type: a value need not be one of the constants.
abbrev pub MessageType : Type 0
MessageType = GoString

abbrev pub message_type_text : MessageType
message_type_text = bytes "text"

abbrev pub message_type_system : MessageType
message_type_system = bytes "system"

pub record MessageContent : Type 0 where
  pub text : GoString
  pub mentions : List GoString

pub record MediaInfo : Type 0 where
  pub url : GoString
  pub thumbnail_url : GoString
  pub mime_type : GoString
  pub file_size : ℤ
  pub file_name : GoString
  pub width : ℤ
  pub height : ℤ

pub record ReplyInfo : Type 0 where
  pub message_id : GoString
  pub sender_id : GoString
  pub content_preview : GoString

pub record ForwardInfo : Type 0 where
  pub original_message_id : GoString
  pub original_sender_id : GoString

pub record Reaction : Type 0 where
  pub emoji : GoString
  pub user_ids : List GoString

pub record Message : Type 0 where
  pub id : GoString
  pub conversation_id : GoString
  pub sender_id : GoString
  pub type : MessageType
  pub content : MessageContent
  pub media : Option MediaInfo
  pub reply_to : Option ReplyInfo
  pub forwarded_from : Option ForwardInfo
  pub reactions : List Reaction
  pub edited : Bool
  pub deleted : Bool
  pub created_at : Time

abbrev pub max_message_content_length : ℕ
max_message_content_length = 4096

abbrev pub max_reactions_per_message : ℕ
max_reactions_per_message = 20

abbrev pub max_users_per_reaction : ℕ
max_users_per_reaction = 50

-- Go's zero value of MessageContent.
abbrev pub empty_content : MessageContent
empty_content = record { text = []; mentions = [] }

-- `now` is the call of time.Now.
unfoldable pub new_message : (id conversation_id sender_id text : GoString) (now : Time) → Message
new_message id conversation_id sender_id text now = record {
  id = id;
  conversation_id = conversation_id;
  sender_id = sender_id;
  type = message_type_text;
  content = record { text = text; mentions = [] };
  media = none;
  reply_to = none;
  forwarded_from = none;
  reactions = [];
  edited = false;
  deleted = false;
  created_at = now;
}

unfoldable pub new_media_message :
    (id conversation_id sender_id : GoString) → MessageType → Option MediaInfo → Time → Message
new_media_message id conversation_id sender_id msg_type media now = record {
  id = id;
  conversation_id = conversation_id;
  sender_id = sender_id;
  type = msg_type;
  content = empty_content;
  media = media;
  reply_to = none;
  forwarded_from = none;
  reactions = [];
  edited = false;
  deleted = false;
  created_at = now;
}

abbrev pub is_nil {ℓ} : {A : Type ℓ} → Option A → Bool
is_nil none = true
is_nil (some a) = false

-- Validate; the result of a valid message is Go's nil error.
unfoldable pub validate : Message → Result (Unit {0})
validate m =
    if is_empty m.conversation_id
    then err (validation "conversation_id is required")
    else if is_empty m.sender_id
    then err (validation "sender_id is required")
    else if m.type == message_type_text && is_empty m.content.text
    then err (validation "text content is required for text messages")
    else if ltb max_message_content_length (length m.content.text)
    then err (validation "message content exceeds maximum length")
    else if not (m.type == message_type_text)
        && not (m.type == message_type_system)
        && is_nil m.media
    then err (validation "media info is required for media messages")
    else ok tt

-- The body of the loop of AddReaction at the group with the emoji, with the groups behind it.
unfoldable pub react_group : GoString → Reaction → List Reaction → Result Bool × List Reaction
react_group user_id r rs =
    if contains r.user_ids user_id
    then (ok false, r ∷ rs)
    else if leb max_users_per_reaction (length r.user_ids)
    then (err (sentinel reaction_limit_reached), r ∷ rs)
    else (ok true, record r { user_ids = r.user_ids ++ user_id ∷ [] } ∷ rs)

abbrev pub behind : Reaction → Result Bool × List Reaction → Result Bool × List Reaction
behind r (result, rs) = (result, r ∷ rs)

-- The loop of AddReaction; `none` where no group has the emoji.
unfoldable pub react : GoString → GoString → List Reaction → Option (Result Bool × List Reaction)
unfolding react_group
react emoji user_id [] = none
react emoji user_id (r ∷ rs) =
    let later = Option.map (behind r) (react emoji user_id rs) in
    if r.emoji == emoji then some (react_group user_id r rs) else later

abbrev open_group : GoString → GoString → List Reaction → Result Bool × List Reaction
open_group emoji user_id rs =
    if leb max_reactions_per_message (length rs)
    then (err (sentinel reaction_limit_reached), rs)
    else (ok true, rs ++ record { emoji = emoji; user_ids = user_id ∷ [] } ∷ [])

-- What AddReaction does to `m.Reactions`.
unfoldable pub add_to_reactions : GoString → GoString → List Reaction → Result Bool × List Reaction
add_to_reactions emoji user_id rs = elim (react emoji user_id rs) [
  | some done ↦ done
  | none ↦ open_group emoji user_id rs
]

unfoldable pub add_reaction : Message → GoString → GoString → Result Bool × Message
add_reaction m emoji user_id =
    let (result, rs) = add_to_reactions emoji user_id m.reactions in
    (result, record m { reactions = rs })

-- append(r.UserIDs[:j], r.UserIDs[j+1:]...) at the first `j` that holds the user.
unfoldable pub remove_first : GoString → List GoString → Option (List GoString)
remove_first user_id [] = none
remove_first user_id (uid ∷ ids) =
    let later = Option.map (λ rest. uid ∷ rest) (remove_first user_id ids) in
    if uid == user_id then some ids else later

abbrev pub regroup : Reaction → List GoString → List Reaction → List Reaction
regroup r [] rs = rs
regroup r (uid ∷ ids) rs = record r { user_ids = uid ∷ ids } ∷ rs

-- The loop of RemoveReaction; `none` where it removes nothing.
unfoldable pub unreact : GoString → GoString → List Reaction → Option (List Reaction)
unreact emoji user_id [] = none
unreact emoji user_id (r ∷ rs) =
    let later = Option.map (λ rest. r ∷ rest) (unreact emoji user_id rs) in
    if r.emoji == emoji
    then elim (remove_first user_id r.user_ids) [
      | some ids ↦ some (regroup r ids rs)
      | none ↦ later
    ]
    else later

unfoldable pub remove_reaction : Message → GoString → GoString → Bool × Message
remove_reaction m emoji user_id = elim (unreact emoji user_id m.reactions) [
  | some rs ↦ (true, record m { reactions = rs })
  | none ↦ (false, m)
]
