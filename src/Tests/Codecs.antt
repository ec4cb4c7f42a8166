-- ===== src/Tests/Codecs.antt =====
-- Codecs of a few lines, at which the laws of encoding/json hold.
use be_modami_chat_service.Prelude.{
  ℕ, ◌≡◌, ◌≢◌, refl, sym, eqb, Bool, true, false, ◌&&◌, List, [], ◌∷◌, Option, none, some, arith,
  Time,
}
use be_modami_chat_service.Text.{GoString, is_empty}
use be_modami_chat_service.Result.{Result, ok, err, external}
use be_modami_chat_service.Domain.Message.{is_nil}
use be_modami_chat_service.Domain.Conversation.{Participant, LastMessage}
use be_modami_chat_service.Adapter.Repository.Codec.{Codec, IsCodec, IsSliceCodec}
use be_modami_chat_service.Adapter.Repository.MessageRows.{ReactionJson}

nil_of : (s : GoString) → is_empty s ≡ true → s ≡ []
nil_of [] h = refl
nil_of (x ∷ s) h = cc

none_of : {A : Type 0} (o : Option A) → is_nil o ≡ true → o ≡ none
none_of none h = refl
none_of (some a) h = cc

-- A codec that keeps a slice of one reaction with an emoji of one byte and one user.
abbrev body : GoString → Option (List GoString) → GoString
body (b ∷ []) (some (u ∷ [])) = b ∷ u
body emoji ids = []

abbrev fits : GoString → Option (List GoString) → Bool
fits (b ∷ []) (some (u ∷ [])) = true
fits emoji ids = false

abbrev encode_reactions : List ReactionJson → GoString
encode_reactions (r ∷ []) = 123 ∷ body r.emoji r.user_ids
encode_reactions rs = 123 ∷ []

abbrev decode_reactions : GoString → Result (List ReactionJson)
decode_reactions (x ∷ b ∷ u) = ok (record { emoji = b ∷ []; user_ids = some (u ∷ []) } ∷ [])
decode_reactions s = err (external "syntax")

abbrev pub one_reaction : List ReactionJson → Bool
one_reaction (r ∷ []) = fits r.emoji r.user_ids
one_reaction rs = false

abbrev pub reaction_codec : Codec (List ReactionJson)
reaction_codec = record { marshal = encode_reactions; unmarshal = decode_reactions }

fields_law :
    (emoji : GoString) (ids : Option (List GoString))
    → fits emoji ids ≡ true
    → decode_reactions (123 ∷ body emoji ids) ≡ ok (record { emoji = emoji; user_ids = ids } ∷ [])
fields_law [] ids h = cc
fields_law (b ∷ []) none h = cc
fields_law (b ∷ []) (some []) h = cc
fields_law (b ∷ []) (some (u ∷ [])) h = refl
fields_law (b ∷ []) (some (u ∷ v ∷ us)) h = cc
fields_law (b ∷ c ∷ s) ids h = cc

reaction_head : (rs : List ReactionJson) → (s : GoString) × (encode_reactions rs ≡ 123 ∷ s)
reaction_head [] = ([], refl)
reaction_head (r ∷ []) = (body r.emoji r.user_ids, refl)
reaction_head (r ∷ q ∷ rs) = ([], refl)

starts_apart : (x y : ℕ) (s t u : GoString) → u ≡ x ∷ s → eqb x y ≡ false → u ≢ y ∷ t
starts_apart x y s t u eq h eq' = ground (arith, eq, eq')

starts_somewhere : (x : ℕ) (s u : GoString) → u ≡ x ∷ s → u ≢ []
starts_somewhere x s u eq eq' = cc

reaction_law :
    (rs : List ReactionJson)
    → one_reaction rs ≡ true
    → decode_reactions (encode_reactions rs) ≡ ok rs
reaction_law [] h = cc
reaction_law (r ∷ []) h = fields_law r.emoji r.user_ids h
reaction_law (r ∷ q ∷ rs) h = cc

pub reaction_codec-IsSliceCodec : IsSliceCodec reaction_codec one_reaction
reaction_codec-IsSliceCodec = record {
  codec = record {
    unmarshal-marshal = reaction_law;
    not_empty = λ rs. starts_somewhere 123 (reaction_head rs).0 _ (reaction_head rs).1;
    not_null = λ rs. starts_apart 123 110 (reaction_head rs).0 _ _ (reaction_head rs).1 refl;
  };
  not_brackets =
      λ r rs. starts_apart 123 91 (reaction_head (r ∷ rs)).0 _ _ (reaction_head (r ∷ rs)).1 refl;
}

-- A codec that keeps the times and the user of a slice of one participant.
abbrev one_participant_fields : Participant → Bool
one_participant_fields p =
    is_empty p.role && (is_empty p.last_read_message_id && is_nil p.notifications_muted_until)

abbrev pub one_participant : List Participant → Bool
one_participant (p ∷ []) = one_participant_fields p
one_participant ps = false

abbrev encode_participants : List Participant → GoString
encode_participants (p ∷ []) = 91 ∷ p.joined_at ∷ p.last_read_at ∷ p.user_id
encode_participants ps = 91 ∷ []

abbrev decoded_participant : (joined_at last_read_at : Time) → (user_id : GoString) → Participant
decoded_participant joined_at last_read_at user_id = record {
  user_id = user_id;
  role = [];
  joined_at = joined_at;
  last_read_message_id = [];
  last_read_at = last_read_at;
  notifications_muted_until = none;
}

abbrev decode_participants : GoString → Result (List Participant)
decode_participants (x ∷ j ∷ l ∷ u) = ok (decoded_participant j l u ∷ [])
decode_participants s = err (external "syntax")

abbrev pub participant_codec : Codec (List Participant)
participant_codec = record { marshal = encode_participants; unmarshal = decode_participants }

participant_law :
    (ps : List Participant)
    → one_participant ps ≡ true
    → decode_participants (encode_participants ps) ≡ ok ps
participant_law [] h = cc
participant_law (p ∷ []) h =
    let role : p.role ≡ [] = nil_of p.role (ground arith) in
    let read : p.last_read_message_id ≡ [] = nil_of p.last_read_message_id (ground arith) in
    let muted : p.notifications_muted_until ≡ none =
      none_of p.notifications_muted_until (ground arith) in
    λ i. ok (
      record p {
        role = sym role i;
        last_read_message_id = sym read i;
        notifications_muted_until = sym muted i;
      }
      ∷ [])
participant_law (p ∷ q ∷ ps) h = cc

participant_head : (ps : List Participant) → (s : GoString) × (encode_participants ps ≡ 91 ∷ s)
participant_head [] = ([], refl)
participant_head (p ∷ []) = (p.joined_at ∷ p.last_read_at ∷ p.user_id, refl)
participant_head (p ∷ q ∷ ps) = ([], refl)

pub participant_codec-IsCodec : IsCodec participant_codec one_participant
participant_codec-IsCodec = record {
  unmarshal-marshal = participant_law;
  not_empty = λ ps. starts_somewhere 91 (participant_head ps).0 _ (participant_head ps).1;
  not_null = λ ps. starts_apart 91 110 (participant_head ps).0 _ _ (participant_head ps).1 refl;
}

-- A codec that keeps the time and the id of a last message.
abbrev encode_last : LastMessage → GoString
encode_last lm = 123 ∷ lm.sent_at ∷ lm.message_id

abbrev decode_last : GoString → Result LastMessage
decode_last (x ∷ t ∷ id) =
    ok (record { message_id = id; sender_id = []; content_preview = []; type = []; sent_at = t })
decode_last s = err (external "syntax")

abbrev pub only_id : LastMessage → Bool
only_id lm = is_empty lm.sender_id && (is_empty lm.content_preview && is_empty lm.type)

abbrev pub last_message_codec : Codec LastMessage
last_message_codec = record { marshal = encode_last; unmarshal = decode_last }

last_message_law : (lm : LastMessage) → only_id lm ≡ true → decode_last (encode_last lm) ≡ ok lm
last_message_law lm h =
    let sender : lm.sender_id ≡ [] = nil_of lm.sender_id (ground arith) in
    let preview : lm.content_preview ≡ [] = nil_of lm.content_preview (ground arith) in
    let type : lm.type ≡ [] = nil_of lm.type (ground arith) in
    λ i.
      ok
        (record lm { sender_id = sym sender i; content_preview = sym preview i; type = sym type i })

pub last_message_codec-IsCodec : IsCodec last_message_codec only_id
last_message_codec-IsCodec = record {
  unmarshal-marshal = last_message_law;
  not_empty = λ lm. starts_somewhere 123 (lm.sent_at ∷ lm.message_id) _ refl;
  not_null = λ lm. starts_apart 123 110 (lm.sent_at ∷ lm.message_id) _ _ refl refl;
}
