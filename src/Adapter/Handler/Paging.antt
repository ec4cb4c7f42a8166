-- ===== src/Adapter/Handler/Paging.antt =====
-- encodeCursor and decodeCursor (internal/adapter/handler/chat_handler.go).
use be_modami_chat_service.Prelude.{
  ◌≡◌, refl, ap, ◌∙◌, Bool, false, [], ◌∷◌, ◌++◌, Option, none, some, eqb, if◌then◌else◌, any, Time,
  arith, append_assoc,
}
use be_modami_chat_service.Text.{GoString, bytes}
use be_modami_chat_service.Result.{Result, ok, err}
use be_modami_chat_service.Domain.Cursor.{Cursor}

-- The layout time.RFC3339Nano of Time.Format and time.Parse.
pub record TimeText : Type 0 where
  pub format : Time → GoString
  pub parse : GoString → Result Time

abbrev pub has_bar : GoString → Bool
has_bar s = any (eqb 124) s

-- The loop of decodeCursor: what stands before and behind the last bar.
unfoldable pub split_last_bar : GoString → Option (GoString × GoString)
split_last_bar [] = none
split_last_bar (x ∷ s) = elim (split_last_bar s) [
  | some parts ↦ some (x ∷ parts.0, parts.1)
  | none ↦ (if eqb x 124 then some ([], s) else none)
]

abbrev pub with_id : Result Time → GoString → Option Cursor
with_id (ok t) id = some (record { created_at = t; id = id })
with_id (err e) id = none

module _ (rfc3339_nano : TimeText) where
  unfoldable pub encode_cursor : Cursor → GoString
  encode_cursor c = rfc3339_nano.format c.created_at ++ bytes "|" ++ c.id

  unfoldable pub decode_cursor : GoString → Option Cursor
  decode_cursor s = elim (split_last_bar s) [
    | some parts ↦ with_id (rfc3339_nano.parse parts.0) parts.1
    | none ↦ none
  ]

no_bar : (s : GoString) → has_bar s ≡ false → split_last_bar s ≡ none
unfolding split_last_bar
no_bar [] h = refl
no_bar (x ∷ s) h = ground (arith, no_bar s)

split_last_bar-append :
    (l r : GoString) → has_bar r ≡ false → split_last_bar (l ++ 124 ∷ r) ≡ some (l, r)
unfolding split_last_bar
split_last_bar-append [] r h = rw (no_bar r h) refl
split_last_bar-append (x ∷ l) r h = rw (split_last_bar-append l r h) refl

module _ (rfc3339_nano : TimeText) where
  -- A cursor that is sent to the client as text comes back as it was, if its id has no bar and
  -- parsing a formatted time gives the time.
  pub decode-encode_cursor :
      (c : Cursor)
      → has_bar c.id ≡ false
      → rfc3339_nano.parse (rfc3339_nano.format c.created_at) ≡ ok c.created_at
      → decode_cursor rfc3339_nano (encode_cursor rfc3339_nano c) ≡ some c
  unfolding decode_cursor encode_cursor
  decode-encode_cursor c h same =
      let text = rfc3339_nano.format c.created_at in
      ap (decode_cursor rfc3339_nano) (append_assoc text (bytes "|") c.id)
      ∙ rw (split_last_bar-append text c.id h, decode_cursor) (rw same refl)
