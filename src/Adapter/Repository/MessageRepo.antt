-- ===== src/Adapter/Repository/MessageRepo.antt =====
-- internal/adapter/repository/message_repo.go
pub mod Pages
pub mod Roundtrip
use be_modami_chat_service.Prelude.{
  ℕ, ◌+◌, Bool, true, false, ◌||◌, List, [], ◌∷◌, map, Option, none, some, ltb, eqb, if◌then◌else◌,
  length, take, Time, String,
}
use be_modami_chat_service.Prelude.Int.{ℤ, pos, int_leb, to_nat}
use be_modami_chat_service.Text.{GoString, bytes, ◌==◌, is_empty}
use be_modami_chat_service.Exec.{Exec, pure, total, lift, wrap, require, continue, ◌>>=◌, ◌>>◌}
use be_modami_chat_service.Result.{
  Error, Result, ok, err, is_sentinel, sentinel, wrapped, not_found, duplicate_message,
  gocql_not_found,
}
use be_modami_chat_service.Domain.Cursor.{Cursor, PageRequest, PageResponse, default_page_size}
use be_modami_chat_service.Domain.Message.{
  Message, MediaInfo, ReplyInfo, ForwardInfo, Reaction, add_reaction, remove_reaction,
}
use be_modami_chat_service.Adapter.Repository.Session.{Session, MessageRow, MessageKey, LookupRow}
use be_modami_chat_service.Adapter.Repository.Codec.{Codec}
use be_modami_chat_service.Adapter.Repository.Paging.{last_of, next_of}
use be_modami_chat_service.Adapter.Repository.MessageRows.{
  ReactionJson, build_message, forward_columns, ids_or_empty, marshal_reactions, media_columns,
  message_row, no_media, of_json, reactions_of, reply_columns, to_json, unmarshal_reactions,
}

abbrev pub key_of : Message → MessageKey
key_of msg = record {
  conversation_id = msg.conversation_id;
  created_at = msg.created_at;
  id = msg.id;
}

-- FindByID and fetchMessage: the driver's error for no row becomes the domain's.
abbrev pub scan_error : String → Error → Error
scan_error msg e = if is_sentinel e gocql_not_found then sentinel not_found else wrapped msg e

abbrev pub scan_result : {A : Type 0} → String → Result A → Result A
scan_result msg (ok a) = ok a
scan_result msg (err e) = err (scan_error msg e)

abbrev pub scanned : {W A : Type 0} → String → Exec W A → Exec W A
scanned msg m w = let (r, w') = m w in (scan_result msg r, w')

abbrev pub page_limit : ℤ → ℕ
page_limit limit = if int_leb limit 0 then default_page_size else to_nat limit

-- The cursor after a message.
abbrev pub message_cursor : Message → Cursor
message_cursor msg = record { created_at = msg.created_at; id = msg.id }

-- The response of FindByConversation from one item more than the limit.
unfoldable pub respond : ℕ → List Message → PageResponse Message
respond limit items =
    let has_more = ltb limit (length items) in
    let shown = if has_more then take limit items else items in
    record {
      items = shown;
      next_cursor = if has_more then next_of message_cursor (last_of shown) else none;
      has_more = has_more;
    }

module _ (json : Codec (List ReactionJson)) where
  module _ {W : Type 0} (session : Session W) where
    -- The insertion, at the CreatedAt that Create leaves in the message.
    unfoldable insert : Message → Exec W Message
    insert msg = do
      applied ← wrap "insert message" (session.insert_message (message_row json msg))
      require applied duplicate_message
      wrap "insert message lookup" (
          session.insert_lookup (record {
            id = msg.id;
            conversation_id = msg.conversation_id;
            created_at = msg.created_at;
          }))
      pure msg

    abbrev pub stamp : (now : W → Time × W) → Message → Exec W Message
    stamp now msg w =
        if eqb msg.created_at 0
        then (let (t, w') = now w in (ok (record msg { created_at = t }), w'))
        else (ok msg, w)

    unfoldable pub create : (now : W → Time × W) → Message → Exec W Message
    unfolding insert
    create now msg = do msg' ← stamp now msg; insert msg'

    unfoldable pub fetch_message : MessageKey → Exec W Message
    fetch_message key = do
      row ← scanned "fetch message" (session.select_message key)
      pure (build_message json row)

    unfoldable pub find_by_id : GoString → Exec W Message
    unfolding fetch_message
    find_by_id id = do
      found ← scanned "find message lookup" (session.select_lookup id)
      fetch_message (record {
        conversation_id = found.conversation_id;
        created_at = found.created_at;
        id = id;
      })

    abbrev pub select_page : GoString → Option Cursor → ℕ → Exec W (List MessageRow)
    select_page conversation_id none limit = session.select_messages conversation_id limit
    select_page conversation_id (some c) limit =
        session.select_messages_before conversation_id c limit

    unfoldable pub find_by_conversation : GoString → PageRequest → Exec W (PageResponse Message)
    find_by_conversation conversation_id page = do
      let limit = page_limit page.limit
      rows ← wrap "iterate messages" (select_page conversation_id page.cursor (limit + 1))
      pure (respond limit (map (build_message json) rows))

    unfoldable pub update : Message → Exec W (Unit {0})
    update msg = wrap "update message" (session.update_message (message_row json msg))

    -- What AddReaction of the repository does with the outcome of Message.AddReaction.
    abbrev save_added : Result Bool × Message → Exec W (Unit {0})
    save_added (err e, msg) = λ w. (err e, w)
    save_added (ok false, msg) = pure tt
    save_added (ok true, msg) =
        session.update_reactions (marshal_reactions json msg.reactions) (key_of msg)

    unfoldable pub add_reaction_to : (message_id emoji user_id : GoString) → Exec W (Unit {0})
    add_reaction_to message_id emoji user_id = do
      msg ← find_by_id message_id
      save_added (add_reaction msg emoji user_id)

    abbrev save_removed : Bool × Message → Exec W (Unit {0})
    save_removed (false, msg) = pure tt
    save_removed (true, msg) =
        session.update_reactions (marshal_reactions json msg.reactions) (key_of msg)

    unfoldable pub remove_reaction_from : (message_id emoji user_id : GoString) → Exec W (Unit {0})
    remove_reaction_from message_id emoji user_id = do
      msg ← find_by_id message_id
      save_removed (remove_reaction msg emoji user_id)
