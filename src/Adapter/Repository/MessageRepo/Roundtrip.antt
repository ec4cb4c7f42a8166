-- ===== src/Adapter/Repository/MessageRepo/Roundtrip.antt =====
-- Create, FindByID, buildMessage and the reactions column of
-- internal/adapter/repository/message_repo.go.
use be_modami_chat_service.Prelude.{
  ◌≡◌, refl, ap, ◌≢◌, Bool, true, false, List, [], ◌∷◌, map, Option, none, some, arith,
  if◌then◌else◌, Time,
}
use be_modami_chat_service.Text.{GoString, bytes, ◌==◌, is_empty}
use be_modami_chat_service.Text.Laws.{eq_iff}
use be_modami_chat_service.Result.{ok}
use be_modami_chat_service.Domain.Message.{Message, Reaction, MediaInfo, ReplyInfo, ForwardInfo}
use be_modami_chat_service.Adapter.Repository.Session.{Session, LookupRow}
use be_modami_chat_service.Adapter.Repository.Codec.{Codec, IsSliceCodec}
use be_modami_chat_service.Adapter.Repository.MessageRepo.{
  create, stamp, find_by_id, fetch_message, key_of, insert,
}
use be_modami_chat_service.Adapter.Repository.MessageRows.{
  ReactionJson, media_columns, reply_columns, forward_columns, to_json, of_json, marshal_reactions,
  unmarshal_reactions, message_row, build_message,
}

-- The optional fields as the flat columns keep them: dropped where the leading column is empty.
abbrev pub stored_media : Option MediaInfo → Option MediaInfo
stored_media none = none
stored_media (some media) = if is_empty media.url then none else some media

abbrev pub stored_reply : Option ReplyInfo → Option ReplyInfo
stored_reply none = none
stored_reply (some reply) = if is_empty reply.message_id then none else some reply

abbrev pub stored_forward : Option ForwardInfo → Option ForwardInfo
stored_forward none = none
stored_forward (some forward) = if is_empty forward.original_message_id then none else some forward

abbrev pub stored : Message → Message
stored msg = record msg {
  media = stored_media msg.media;
  reply_to = stored_reply msg.reply_to;
  forwarded_from = stored_forward msg.forwarded_from;
}

rebuilt_media :
    (o : Option MediaInfo)
    → (if is_empty (media_columns o).url then none else some (media_columns o)) ≡ stored_media o
rebuilt_media none = refl
rebuilt_media (some media) = refl

rebuilt_reply :
    (o : Option ReplyInfo)
    → (if is_empty (reply_columns o).message_id then none else some (reply_columns o))
      ≡ stored_reply o
rebuilt_reply none = refl
rebuilt_reply (some reply) = refl

rebuilt_forward :
    (o : Option ForwardInfo)
    → (if is_empty (forward_columns o).original_message_id then none else some (forward_columns o))
      ≡ stored_forward o
rebuilt_forward none = refl
rebuilt_forward (some forward) = refl

of_json-to_json : (rs : List Reaction) → map of_json (map to_json rs) ≡ rs
of_json-to_json [] = refl
of_json-to_json (r ∷ rs) = ap (λ r'. r ∷ r') (of_json-to_json rs)

pub not_empty_false : (s : GoString) → s ≢ [] → is_empty s ≡ false
not_empty_false [] h = absurd (h refl)
not_empty_false (x ∷ s) h = refl

pub differs : (s t : GoString) → s ≢ t → (s == t) ≡ false
differs s t h = ground (arith, eq_iff s t)

-- The row of chat.messages_by_id for a message.
abbrev pub lookup_of : Message → LookupRow
lookup_of msg = record {
  id = msg.id;
  conversation_id = msg.conversation_id;
  created_at = msg.created_at;
}

module _ (json : Codec (List ReactionJson)) (survives : List ReactionJson → Bool)
    (laws : IsSliceCodec json survives) where
  unmarshal-marshal_reactions :
      (rs : List Reaction)
      → survives (map to_json rs) ≡ true
      → unmarshal_reactions json (marshal_reactions json rs) ≡ rs
  unfolding marshal_reactions unmarshal_reactions ◌==◌
  unmarshal-marshal_reactions [] h = refl
  unmarshal-marshal_reactions (r ∷ rs) h =
      let text = json.marshal (map to_json (r ∷ rs)) in
      rw
        (
          not_empty_false text (laws.not_empty (map to_json (r ∷ rs))),
          differs text (bytes "null") (laws.not_null (map to_json (r ∷ rs))),
          differs text (bytes "[]") (laws.not_brackets (to_json r) (map to_json rs)),
          laws.unmarshal-marshal (map to_json (r ∷ rs)) h,
        )
        (of_json-to_json (r ∷ rs))

  -- A message that is written as a row and built from it again is the same, but for a media, a
  -- reply or a forward whose URL or message id is empty, which is lost, if the codec keeps the
  -- reactions.
  pub build-message_row :
      (msg : Message)
      → survives (map to_json msg.reactions) ≡ true
      → build_message json (message_row json msg) ≡ stored msg
  unfolding build_message message_row
  build-message_row msg h i = record msg {
    media = rebuilt_media msg.media i;
    reply_to = rebuilt_reply msg.reply_to i;
    forwarded_from = rebuilt_forward msg.forwarded_from i;
    reactions = unmarshal-marshal_reactions msg.reactions h i;
  }

  -- A created message is found under its id as it was stored, at the CreatedAt that Create gave it,
  -- if both insertions succeed and the two tables then answer with the rows as they were written
  -- (which a CQL timestamp does for a time of whole milliseconds).
  find_by_id-create :
      {W : Type 0} (session : Session W) (now : W → Time × W) (msg msg' : Message) (w w₁ w₂ w₃ : W)
      → survives (map to_json msg'.reactions) ≡ true
      → stamp json session now msg w ≡ (ok msg', w₁)
      → session.insert_message (message_row json msg') w₁ ≡ (ok true, w₂)
      → session.insert_lookup (lookup_of msg') w₂ ≡ (ok tt, w₃)
      → session.select_lookup msg'.id w₃ ≡ (ok (lookup_of msg'), w₃)
      → session.select_message (key_of msg') w₃ ≡ (ok (message_row json msg'), w₃)
      → (create json session now msg w ≡ (ok msg', w₃))
        × (find_by_id json session msg'.id w₃ ≡ (ok (stored msg'), w₃))
  unfolding create insert find_by_id fetch_message
  find_by_id-create session now msg msg' w w₁ w₂ w₃ kept stamped inserted indexed looked selected =
      (
        rw (stamped, create) (rw (inserted, create) (rw (indexed, create) refl)),
        rw (looked, find_by_id)
            (rw (selected, find_by_id) (ap (λ m. (ok m, w₃)) (build-message_row msg' kept))),
      )
