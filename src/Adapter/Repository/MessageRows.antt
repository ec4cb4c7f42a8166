-- ===== src/Adapter/Repository/MessageRows.antt =====
-- The rows of chat.messages (internal/adapter/repository/message_repo.go): the columns that a message
-- is written to and built from.
use be_modami_chat_service.Prelude.{◌||◌, List, [], ◌∷◌, map, Option, none, some, if◌then◌else◌}
use be_modami_chat_service.Prelude.Int.{pos}
use be_modami_chat_service.Text.{GoString, bytes, ◌==◌, is_empty}
use be_modami_chat_service.Result.{Result, ok, err}
use be_modami_chat_service.Domain.Message.{Message, MediaInfo, ReplyInfo, ForwardInfo, Reaction}
use be_modami_chat_service.Adapter.Repository.Session.{MessageRow}
use be_modami_chat_service.Adapter.Repository.Codec.{Codec}

-- reactionJSON; a nil slice of users is `none`.
pub record ReactionJson : Type 0 where
  pub emoji : GoString
  pub user_ids : Option (List GoString)

abbrev pub to_json : Reaction → ReactionJson
to_json r = record { emoji = r.emoji; user_ids = some r.user_ids }

abbrev pub ids_or_empty : Option (List GoString) → List GoString
ids_or_empty none = []
ids_or_empty (some ids) = ids

abbrev pub of_json : ReactionJson → Reaction
of_json item = record { emoji = item.emoji; user_ids = ids_or_empty item.user_ids }

abbrev pub reactions_of : Result (List ReactionJson) → List Reaction
reactions_of (ok items) = map of_json items
reactions_of (err e) = []

-- The flattened optional fields of a message: empty where they are absent.
abbrev pub no_media : MediaInfo
no_media = record {
  url = [];
  thumbnail_url = [];
  mime_type = [];
  file_size = pos 0;
  file_name = [];
  width = pos 0;
  height = pos 0;
}

abbrev pub media_columns : Option MediaInfo → MediaInfo
media_columns none = no_media
media_columns (some media) = media

abbrev pub reply_columns : Option ReplyInfo → ReplyInfo
reply_columns none = record { message_id = []; sender_id = []; content_preview = [] }
reply_columns (some reply) = reply

abbrev pub forward_columns : Option ForwardInfo → ForwardInfo
forward_columns none = record { original_message_id = []; original_sender_id = [] }
forward_columns (some forward) = forward

module _ (json : Codec (List ReactionJson)) where
  unfoldable pub marshal_reactions : List Reaction → GoString
  marshal_reactions [] = bytes "[]"
  marshal_reactions (r ∷ rs) = json.marshal (map to_json (r ∷ rs))

  unfoldable pub unmarshal_reactions : GoString → List Reaction
  unmarshal_reactions data' =
      if is_empty data' || (data' == bytes "null" || data' == bytes "[]")
      then []
      else reactions_of (json.unmarshal data')

  -- The columns that Create inserts and Update sets.
  unfoldable pub message_row : Message → MessageRow
  message_row msg =
      let media = media_columns msg.media in
      let reply = reply_columns msg.reply_to in
      let forward = forward_columns msg.forwarded_from in
      record {
        conversation_id = msg.conversation_id;
        created_at = msg.created_at;
        id = msg.id;
        sender_id = msg.sender_id;
        type = msg.type;
        content_text = msg.content.text;
        content_mentions = msg.content.mentions;
        media_url = media.url;
        media_thumbnail_url = media.thumbnail_url;
        media_mime_type = media.mime_type;
        media_file_size = media.file_size;
        media_file_name = media.file_name;
        media_width = media.width;
        media_height = media.height;
        reply_to_id = reply.message_id;
        reply_to_sender_id = reply.sender_id;
        reply_to_preview = reply.content_preview;
        forwarded_from_id = forward.original_message_id;
        forwarded_from_sender_id = forward.original_sender_id;
        reactions = marshal_reactions msg.reactions;
        edited = msg.edited;
        deleted = msg.deleted;
      }

  unfoldable pub build_message : MessageRow → Message
  build_message row = record {
    id = row.id;
    conversation_id = row.conversation_id;
    sender_id = row.sender_id;
    type = row.type;
    content = record { text = row.content_text; mentions = row.content_mentions };
    media =
        if is_empty row.media_url
        then none
        else some (record {
          url = row.media_url;
          thumbnail_url = row.media_thumbnail_url;
          mime_type = row.media_mime_type;
          file_size = row.media_file_size;
          file_name = row.media_file_name;
          width = row.media_width;
          height = row.media_height;
        });
    reply_to =
        if is_empty row.reply_to_id
        then none
        else some (record {
          message_id = row.reply_to_id;
          sender_id = row.reply_to_sender_id;
          content_preview = row.reply_to_preview;
        });
    forwarded_from =
        if is_empty row.forwarded_from_id
        then none
        else some (record {
          original_message_id = row.forwarded_from_id;
          original_sender_id = row.forwarded_from_sender_id;
        });
    reactions = unmarshal_reactions row.reactions;
    edited = row.edited;
    deleted = row.deleted;
    created_at = row.created_at;
  }
