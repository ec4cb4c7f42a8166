-- ===== src/Adapter/Handler/Requests.antt =====
-- The request types, parsePageRequest and the paged response of
-- internal/adapter/handler/chat_handler.go.
use be_modami_chat_service.Prelude.{
  ℕ, ◌+◌, ◌-◌, String, Bool, ◌&&◌, List, [], ◌∷◌, Option, none, some, leb, ltb, eqb, if◌then◌else◌,
}
use be_modami_chat_service.Prelude.Int.{ℤ, pos, negsuc}
use be_modami_chat_service.Text.{GoString}
use be_modami_chat_service.Domain.Cursor.{Cursor, PageRequest, PageResponse}
use be_modami_chat_service.Domain.Message.{MediaInfo, ReplyInfo}
use be_modami_chat_service.Service.SendMessage.{SendMessageCommand}
use be_modami_chat_service.Adapter.Handler.Paging.{TimeText, encode_cursor, decode_cursor}
use Prim.Native.Nat.{◌*◌}

pub record MediaInfoRequest : Type 0 where
  pub url : GoString
  pub thumbnail_url : GoString
  pub mime_type : GoString
  pub file_size : ℤ
  pub file_name : GoString
  pub width : ℤ
  pub height : ℤ

pub record ReplyToRequest : Type 0 where
  pub message_id : GoString
  pub sender_id : GoString
  pub content_preview : GoString

pub record SendMessageRequest : Type 0 where
  pub type : GoString
  pub text : GoString
  pub mentions : List GoString
  pub media : Option MediaInfoRequest
  pub reply_to : Option ReplyToRequest

pub record CreateDirectChatRequest : Type 0 where
  pub user_id : GoString

pub record CreateGroupRequest : Type 0 where
  pub name : GoString
  pub member_ids : List GoString

pub record MarkAsReadRequest : Type 0 where
  pub message_id : GoString

pub record TypingRequest : Type 0 where
  pub typing : Bool

pub record AddParticipantRequest : Type 0 where
  pub user_id : GoString

pub record AddReactionRequest : Type 0 where
  pub emoji : GoString

pub record EditMessageRequest : Type 0 where
  pub text : GoString

-- What a handler reads of a request besides its body: the user that the middleware found, the parts
-- of the path by name, and those of the query. A missing part is the empty text.
pub record HttpRequest : Type 0 where
  pub user_id : GoString
  pub url_param : String → GoString
  pub cursor : GoString
  pub limit : GoString

pub record CursorPagedData (T : Type 0) : Type 0 where
  pub items : List T
  pub next_cursor : GoString
  pub has_more : Bool

-- strconv.Atoi: decimal digits with at most one sign, within the bounds of a 64-bit int.
abbrev pub int_bound : ℕ
int_bound = 9_223_372_036_854_775_808

digits : ℕ → GoString → Option ℕ
digits acc [] = some acc
digits acc (c ∷ s) =
    let rest = digits (acc * 10 + (c - 48)) s in if leb 48 c && leb c 57 then rest else none

abbrev non_empty_digits : GoString → Option ℕ
non_empty_digits [] = none
non_empty_digits (c ∷ s) = digits 0 (c ∷ s)

abbrev as_positive : Option ℕ → Option ℤ
as_positive none = none
as_positive (some n) = if ltb n int_bound then some (pos n) else none

abbrev as_negative : Option ℕ → Option ℤ
as_negative none = none
as_negative (some n) =
    if eqb n 0 then some (pos 0) else if leb n int_bound then some (negsuc (n - 1)) else none

unfoldable pub atoi : GoString → Option ℤ
unfolding digits
atoi [] = none
atoi (c ∷ s) =
    if eqb c 45
    then as_negative (non_empty_digits s)
    else if eqb c 43
    then as_positive (non_empty_digits s)
    else as_positive (non_empty_digits (c ∷ s))

abbrev limit_or_zero : Option ℤ → ℤ
limit_or_zero none = pos 0
limit_or_zero (some n) = n

abbrev pub limit_of : GoString → ℤ
limit_of [] = pos 0
limit_of (c ∷ s) = limit_or_zero (atoi (c ∷ s))

module _ (rfc3339_nano : TimeText) where
  abbrev pub cursor_of : GoString → Option Cursor
  cursor_of [] = none
  cursor_of (c ∷ s) = decode_cursor rfc3339_nano (c ∷ s)

  unfoldable pub parse_page_request : HttpRequest → PageRequest
  parse_page_request r = record { cursor = cursor_of r.cursor; limit = limit_of r.limit }

  abbrev pub cursor_text : Option Cursor → GoString
  cursor_text none = []
  cursor_text (some c) = encode_cursor rfc3339_nano c

  -- The paged data of ListConversations and GetMessages.
  unfoldable pub paged_data : {T : Type 0} → PageResponse T → CursorPagedData T
  paged_data result = record {
    items = result.items;
    next_cursor = cursor_text result.next_cursor;
    has_more = result.has_more;
  }

abbrev media_of : MediaInfoRequest → MediaInfo
media_of m = record {
  url = m.url;
  thumbnail_url = m.thumbnail_url;
  mime_type = m.mime_type;
  file_size = m.file_size;
  file_name = m.file_name;
  width = m.width;
  height = m.height;
}

abbrev reply_of : ReplyToRequest → ReplyInfo
reply_of r = record {
  message_id = r.message_id;
  sender_id = r.sender_id;
  content_preview = r.content_preview;
}

abbrev optional : {A B : Type 0} → (A → B) → Option A → Option B
optional f none = none
optional f (some a) = some (f a)

-- The command of SendMessage, with the optional parts of the request.
unfoldable pub command_of :
    (conversation_id sender_id : GoString) → SendMessageRequest → SendMessageCommand
command_of conversation_id sender_id req = record {
  conversation_id = conversation_id;
  sender_id = sender_id;
  type = req.type;
  content = record { text = req.text; mentions = req.mentions };
  media = optional media_of req.media;
  reply_to = optional reply_of req.reply_to;
  forwarded_from = none;
}
