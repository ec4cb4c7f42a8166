-- ===== src/Adapter/Repository/MessageRepo/Pages.antt =====
-- FindByConversation (internal/adapter/repository/message_repo.go) page after page.
use native.Mathlib.Numerals.{add-one}
use be_modami_chat_service.Prelude.{
  ℕ, zero, suc, ◌≡◌, refl, ap, ◌∙◌, ◌+◌, ◌≤◌, ◌<◌, List, [], ◌∷◌, Option, none, some, arith, ltb,
  inl, inr, Bool-cases, length, take, keep, map, length-take, take_all,
}
use be_modami_chat_service.Prelude.Int.{pos}
use be_modami_chat_service.Text.{GoString}
use be_modami_chat_service.Result.{ok}
use be_modami_chat_service.Exec.{Exec}
use be_modami_chat_service.Domain.Cursor.{Cursor, PageResponse}
use be_modami_chat_service.Domain.Message.{Message}
use be_modami_chat_service.Adapter.Repository.Session.{Session, MessageRow}
use be_modami_chat_service.Adapter.Repository.Codec.{Codec}
use be_modami_chat_service.Adapter.Repository.Paging.{first_page, older, Descends, collect}
use be_modami_chat_service.Adapter.Repository.Paging.Walk.{
  collect_pages, map-keep, map-take, Descends-map,
}
use be_modami_chat_service.Adapter.Repository.MessageRepo.{
  find_by_conversation, respond, page_limit, select_page, message_cursor,
}
use be_modami_chat_service.Adapter.Repository.MessageRows.{ReactionJson, build_message}

-- The clustering key of chat.messages, by which the table is in descending order.
abbrev pub row_cursor : MessageRow → Cursor
row_cursor row = record { created_at = row.created_at; id = row.id }

take-take-suc : {A : Type 0} (n : ℕ) (xs : List A) → take n (take (suc n) xs) ≡ take n xs
take-take-suc zero xs = refl
take-take-suc (suc n) [] = refl
take-take-suc (suc n) (x ∷ xs) = ap (λ r. x ∷ r) (take-take-suc n xs)

length-map : {A B : Type 0} (f : A → B) (xs : List A) → length (map f xs) ≡ length xs
length-map f [] = refl
length-map f (x ∷ xs) = ap suc (length-map f xs)

more_than :
    {A : Type 0} (limit : ℕ) (xs : List A)
    → ltb limit (length (take (suc limit) xs)) ≡ ltb limit (length xs)
more_than limit xs = ground (arith, length-take (suc limit) xs)

respond-take :
    (limit : ℕ) (xs : List Message)
    → respond limit (take (suc limit) xs) ≡ first_page message_cursor limit xs
unfolding respond first_page
respond-take limit xs = elim (Bool-cases (ltb limit (length xs))) [
  | inl more ↦ rw (more_than limit xs, more, take-take-suc limit xs) refl
  | inr done ↦
      rw
        (
          more_than limit xs,
          done,
          take_all (suc limit) xs (ground arith),
          take_all limit xs (ground arith),
        )
        refl
]

respond-take_one :
    (limit : ℕ) (xs : List Message)
    → respond limit (take (limit + 1) xs) ≡ first_page message_cursor limit xs
respond-take_one limit xs = rw (add-one limit) (respond-take limit xs)

-- One request of the walk.
abbrev pub fetch :
    {W : Type 0}
    → Codec (List ReactionJson)
    → Session W
    → (conversation_id : GoString) → (limit : ℕ) → Option Cursor
    → Exec W (PageResponse Message)
fetch json session conversation_id limit c =
    find_by_conversation json session conversation_id (record { cursor = c; limit = pos limit })

module _ (json : Codec (List ReactionJson)) {W : Type 0} (session : Session W)
    (conversation_id : GoString) (rows : List MessageRow) (w : W)
    (descending : Descends row_cursor rows)
    (first : (n : ℕ) → session.select_messages conversation_id n w ≡ (ok (take n rows), w))
    (before : (c : Cursor) (n : ℕ)
      → session.select_messages_before conversation_id c n w
        ≡ (ok (take n (keep (older row_cursor c) rows)), w))
    (limit : ℕ) (positive : 1 ≤ limit) where
  limit_of_page : page_limit (pos limit) ≡ limit
  limit_of_page = ground arith

  pub page_of :
      (c : Option Cursor) (found : List MessageRow)
      → select_page json session conversation_id c (limit + 1) w ≡ (ok (take (limit + 1) found), w)
      → fetch json session conversation_id limit c w
        ≡ (ok (first_page message_cursor limit (map (build_message json) found)), w)
  unfolding find_by_conversation
  page_of c found eq =
      rw (limit_of_page, eq, find_by_conversation)
        (rw (map-take (build_message json) message_cursor (limit + 1) found)
          (ap (λ r. (ok r, w)) (respond-take_one limit (map (build_message json) found))))

  sorted :
      (rs : List MessageRow)
      → Descends row_cursor rs
      → Descends (λ row. message_cursor (build_message json row)) rs
  unfolding build_message
  sorted rs h = h

  same_cut :
      (c : Cursor) (rs : List MessageRow)
      → keep (older row_cursor c) rs
        ≡ keep (older (λ row. message_cursor (build_message json row)) c) rs
  unfolding build_message
  same_cut c rs = refl

  pub before_page :
      (c : Cursor)
      → fetch json session conversation_id limit (some c) w ≡ (
        ok (
            first_page message_cursor limit
              (keep (older message_cursor c) (map (build_message json) rows))),
        w,
      )
  before_page c =
      page_of (some c) (keep (older row_cursor c) rows) (before c (limit + 1))
      ∙ ap (λ r. (ok (first_page message_cursor limit r), w))
          (ap (map (build_message json)) (same_cut c rows)
            ∙ map-keep (build_message json) message_cursor c rows)

  -- A client that follows the cursors of FindByConversation gets every message of the conversation
  -- once, in the order of the table, whatever positive limit it asks for, if the table is in
  -- descending order of (created_at, id), the two queries answer with the first `n` rows and with
  -- the first `n` rows before the cursor and do nothing else, and it asks at least once more than
  -- there are messages.
  pub find_by_conversation_pages :
      (fuel : ℕ)
      → length rows < fuel
      → collect (fetch json session conversation_id limit) fuel none w
        ≡ (ok (map (build_message json) rows), w)
  find_by_conversation_pages fuel h =
      collect_pages message_cursor (map (build_message json) rows) limit
        (fetch json session conversation_id limit) w
        (Descends-map (build_message json) message_cursor rows (sorted rows descending)) positive
        before_page fuel (omega (arith, length-map (build_message json) rows))
        (page_of none rows (first (limit + 1)))
