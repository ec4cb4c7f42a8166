-- ===== src/Adapter/Handler/Chat/Walk.antt =====
-- A client that reads all messages of a conversation page after page over HTTP.
use be_modami_chat_service.Prelude.{
  ℕ, zero, suc, ◌≡◌, refl, ap, ◌∙◌, false, List, [], ◌∷◌, ◌++◌, Option, none, some, inl, inr,
  append_assoc, Option-cases, if◌then◌else◌,
}
use be_modami_chat_service.Text.{GoString, bytes, is_empty}
use be_modami_chat_service.Result.{Result, ok, err}
use be_modami_chat_service.Exec.{Exec, continue}
use be_modami_chat_service.Domain.Cursor.{Cursor, PageResponse}
use be_modami_chat_service.Domain.Message.{Message}
use be_modami_chat_service.Adapter.Repository.Paging.{collect}
use be_modami_chat_service.Adapter.Handler.Paging.{TimeText, encode_cursor}
use be_modami_chat_service.Adapter.Handler.Requests.{paged_data, cursor_of, cursor_text}
use be_modami_chat_service.Adapter.Handler.Chat.{Reply, ok_with, messages}

abbrev prepend : List Message → Option (List Message) → Option (List Message)
prepend items none = none
prepend items (some more) = some (items ++ more)

module _ {W : Type 0} where
  abbrev behind : List Message → Option (List Message) × W → Option (List Message) × W
  behind items (more, w) = (prepend items more, w)

  -- What a client does with an answer: it goes on while there is a cursor.
  abbrev follow : (GoString → W → Option (List Message) × W) → Reply × W → Option (List Message) × W
  follow rest (ok_with (messages d), w) =
      let more = behind d.items (rest d.next_cursor w) in
      if is_empty d.next_cursor then (some d.items, w) else more
  follow rest (reply, w) = (none, w)

  -- At most `fuel` requests; `none` where one of them is not answered with messages.
  unfoldable pub read_pages :
      (GoString → W → Reply × W) → (fuel : ℕ) → GoString → W → Option (List Message) × W
  read_pages request zero c w = (some [], w)
  read_pages request (suc fuel) c w = follow (read_pages request fuel) (request c w)

  abbrev pub answer_of : Result (List Message) × W → Option (List Message) × W
  answer_of (ok xs, w) = (some xs, w)
  answer_of (err e, w) = (none, w)

  answer_of-prepend :
      (items : List Message) (r : Result (List Message) × W)
      → behind items (answer_of r) ≡ answer_of (continue (λ more w. (ok (items ++ more), w)) r)
  answer_of-prepend items (ok xs, w) = refl
  answer_of-prepend items (err e, w) = refl

is_empty-append : (s : GoString) (x : ℕ) (r : GoString) → is_empty (s ++ x ∷ r) ≡ false
is_empty-append [] x r = refl
is_empty-append (y ∷ s) x r = refl

module _ (t : TimeText) where
  -- The text of a cursor is read as that cursor.
  abbrev pub Readable : Option Cursor → Type 0
  Readable c = cursor_of t (cursor_text t c) ≡ c

  is_empty-encode_cursor : (c : Cursor) → is_empty (encode_cursor t c) ≡ false
  unfolding encode_cursor
  is_empty-encode_cursor c =
      ap is_empty (append_assoc (t.format c.created_at) (bytes "|") c.id)
      ∙ is_empty-append (t.format c.created_at) 124 c.id

  module _ {W : Type 0} (fetch : Option Cursor → Exec W (PageResponse Message))
      (request : GoString → W → Reply × W) (w : W)
      (served : (c : Option Cursor)
        → Readable c
        → (page : PageResponse Message) × (fetch c w ≡ (ok page, w))
          × Readable page.next_cursor
          × (request (cursor_text t c) w ≡ (ok_with (messages (paged_data t page)), w))) where
    -- Over HTTP a client gets what it would get from the repository.
    pub read_pages-collect :
        (fuel : ℕ) (c : Option Cursor)
        → Readable c
        → read_pages request fuel (cursor_text t c) w ≡ answer_of (collect fetch fuel c w)
    unfolding read_pages collect paged_data
    read_pages-collect zero c h = refl
    read_pages-collect (suc fuel) c h =
        let (page, eq, readable, answer) = served c h in
        elim (Option-cases page.next_cursor) [
          | inl last ↦ rw (eq, answer) (rw last refl)
          | inr (c', next) ↦
              let readable' : Readable (some c') = rw next at readable in
              rw (eq, answer)
                (rw next (
                  rw (is_empty-encode_cursor c', read_pages-collect fuel (some c') readable')
                    (answer_of-prepend page.items (collect fetch fuel (some c') w))))
        ]
