-- ===== src/Adapter/Handler/Chat/Pages.antt =====
-- GetMessages from the text of the cursor down to the table and back: the handler, the use case and
-- the repository together.
use be_modami_chat_service.Prelude.{
  ℕ, zero, suc, ◌≡◌, refl, ap, ◌∙◌, ◌+◌, ◌≤◌, ◌<◌, Time, Bool, true, false, List, [], ◌∷◌, Option,
  none, some, inl, inr, Bool-cases, ltb, length, map, take, keep, All,
}
use be_modami_chat_service.Prelude.Int.{pos, to_nat}
use be_modami_chat_service.Text.{GoString}
use be_modami_chat_service.Result.{ok}
use be_modami_chat_service.Exec.{Exec}
use be_modami_chat_service.Domain.Cursor.{
  Cursor, PageResponse, normalize_limit, normalize_limit_range,
}
use be_modami_chat_service.Domain.Message.{Message}
use be_modami_chat_service.Domain.Conversation.{Conversation, has_member}
use be_modami_chat_service.Service.Defs.{ChatService}
use be_modami_chat_service.Service.ChatService.{get_messages}
use be_modami_chat_service.Adapter.Repository.Session.{Session, MessageRow}
use be_modami_chat_service.Adapter.Repository.Wiring.{Encoding, new_message_repository}
use be_modami_chat_service.Adapter.Repository.MessageRows.{build_message}
use be_modami_chat_service.Adapter.Repository.MessageRepo.{message_cursor}
use be_modami_chat_service.Adapter.Repository.MessageRepo.Pages.{
  row_cursor, fetch, page_of, before_page, find_by_conversation_pages,
}
use be_modami_chat_service.Adapter.Repository.Paging.{first_page, older, Descends, last_of, next_of}
use be_modami_chat_service.Adapter.Handler.Paging.{
  TimeText, decode_cursor, encode_cursor, decode-encode_cursor, has_bar, split_last_bar,
}
use be_modami_chat_service.Adapter.Handler.Requests.{
  HttpRequest, cursor_of, cursor_text, limit_of, parse_page_request, paged_data,
}
use be_modami_chat_service.Adapter.Handler.Chat
use be_modami_chat_service.Adapter.Handler.Chat.{Reply, ok_with, messages, serve}
use be_modami_chat_service.Adapter.Handler.Chat.Walk.{
  Readable, read_pages, answer_of, read_pages-collect,
}

module _ (t : TimeText) where
  -- The cursor behind an item survives its way through the client.
  abbrev pub IsLegible : Cursor → Type 0
  IsLegible c = (has_bar c.id ≡ false) × (t.parse (t.format c.created_at) ≡ ok c.created_at)

  cursor_of-decode : (s : GoString) → cursor_of t s ≡ decode_cursor t s
  unfolding decode_cursor split_last_bar
  cursor_of-decode [] = refl
  cursor_of-decode (x ∷ s) = refl

  Readable-some : (c : Cursor) → IsLegible c → Readable t (some c)
  Readable-some c (plain, same) =
      cursor_of-decode (encode_cursor t c) ∙ decode-encode_cursor t c plain same

  Readable-last :
      (xs : List Message) (n : ℕ)
      → All (λ m. IsLegible (message_cursor m)) xs
      → Readable t (next_of message_cursor (last_of (take n xs)))
  Readable-last xs zero h = refl
  Readable-last [] (suc n) h = refl
  Readable-last (x ∷ []) (suc zero) (h, hs) = Readable-some (message_cursor x) h
  Readable-last (x ∷ []) (suc (suc n)) (h, hs) = Readable-some (message_cursor x) h
  Readable-last (x ∷ y ∷ xs) (suc zero) (h, hs) = Readable-some (message_cursor x) h
  Readable-last (x ∷ y ∷ xs) (suc (suc n)) (h, hs) = Readable-last (y ∷ xs) (suc n) hs

  pub Readable-first_page :
      (xs : List Message) (n : ℕ)
      → All (λ m. IsLegible (message_cursor m)) xs
      → Readable t (first_page message_cursor n xs).next_cursor
  unfolding first_page
  Readable-first_page xs n h = elim (Bool-cases (ltb n (length xs))) [
    | inl more ↦ rw more (Readable-last xs n h)
    | inr done ↦ rw done refl
  ]

  pub legible_keep :
      (p : Message → Bool) (xs : List Message)
      → All (λ m. IsLegible (message_cursor m)) xs
      → All (λ m. IsLegible (message_cursor m)) (keep p xs)
  legible_keep p [] h = tt
  legible_keep p (x ∷ xs) (h, hs) = elim (Bool-cases (p x)) [
    | inl kept ↦ rw kept (h, legible_keep p xs hs)
    | inr dropped ↦ rw dropped (legible_keep p xs hs)
  ]

module _ (encoding : Encoding) where
  abbrev pub built : List MessageRow → List Message
  built rows = map (build_message encoding.reactions) rows

  legible_built :
      (t : TimeText) (rows : List MessageRow)
      → All (λ row. IsLegible t (row_cursor row)) rows
      → All (λ m. IsLegible t (message_cursor m)) (built rows)
  unfolding build_message
  legible_built t [] h = tt
  legible_built t (row ∷ rows) (h, hs) = (h, legible_built t rows hs)

-- The request for the page behind a cursor.
abbrev pub asking : HttpRequest → GoString → HttpRequest
asking r c = record r { cursor = c }

module _ {W : Type 0} (encoding : Encoding) (session : Session W) (now : W → Time × W)
    (s : ChatService W) (t : TimeText) (r : HttpRequest) (rows : List MessageRow) (w : W)
    (conv : Conversation)
    (found : s.conv_repo.find_by_id (r.url_param "conversationID") w ≡ (ok conv, w))
    (member : has_member conv r.user_id ≡ true) (descending : Descends row_cursor rows)
    (legible : All (λ row. IsLegible t (row_cursor row)) rows)
    (first : (n : ℕ)
      → session.select_messages (r.url_param "conversationID") n w ≡ (ok (take n rows), w))
    (before : (c : Cursor) (n : ℕ)
      → session.select_messages_before (r.url_param "conversationID") c n w
        ≡ (ok (take n (keep (older row_cursor c) rows)), w)) where
  abbrev pub over_table : ChatService W
  over_table = record s { msg_repo = new_message_repository encoding session now }

  abbrev pub request : GoString → W → Reply × W
  request c w' = serve over_table t Chat.get_messages_at (asking r c) w'

  module _ (n : ℕ) (limit : normalize_limit (limit_of r.limit) ≡ pos n) (positive : 1 ≤ n) where
    abbrev asked : Option Cursor → Exec W (PageResponse Message)
    asked c = fetch encoding.reactions session (r.url_param "conversationID") n c

    request-fetch :
        (c : Option Cursor) (page : PageResponse Message)
        → Readable t c
        → asked c w ≡ (ok page, w)
        → request (cursor_text t c) w ≡ (ok_with (messages (paged_data t page)), w)
    unfolding serve Chat.get_messages get_messages parse_page_request
    request-fetch c page readable eq =
        rw (found, get_messages) (rw (member, readable, limit, eq) refl)

    abbrev shown : List Message
    shown = built encoding rows

    served :
        (c : Option Cursor)
        → Readable t c
        → (page : PageResponse Message) × (asked c w ≡ (ok page, w))
          × Readable t page.next_cursor
          × (request (cursor_text t c) w ≡ (ok_with (messages (paged_data t page)), w))
    served none h =
        let page = first_page message_cursor n shown in
        let eq =
          page_of encoding.reactions session (r.url_param "conversationID") rows w descending first
            before n positive none rows (first (n + 1)) in
        (
          page,
          eq,
          Readable-first_page t shown n (legible_built encoding t rows legible),
          request-fetch none page h eq,
        )
    served (some c) h =
        let rest = keep (older message_cursor c) shown in
        let page = first_page message_cursor n rest in
        let eq =
          before_page encoding.reactions session (r.url_param "conversationID") rows w descending
            first before n positive c in
        (
          page,
          eq,
          Readable-first_page t rest n (
              legible_keep t (older message_cursor c) shown
                (legible_built encoding t rows legible)),
          request-fetch (some c) page h eq,
        )

    read_all : (fuel : ℕ) → length rows < fuel → read_pages request fuel [] w ≡ (some shown, w)
    read_all fuel h =
        read_pages-collect t asked request w served fuel none refl
        ∙ ap (answer_of) (
            find_by_conversation_pages encoding.reactions session (r.url_param "conversationID")
              rows w descending first before n positive fuel h)

  -- A member of a conversation who follows the cursors that GET .../messages answers with, as texts
  -- and with whatever text for the limit, gets every message of the conversation once, in the order
  -- of the table, if the conversation is found, no id has a bar and the times of the rows survive being formatted and parsed, the table is in descending order
  -- of (created_at, id), its two queries answer with the first `n` rows and with the first `n` rows
  -- before the cursor and do nothing else, and the client may ask once more than there are messages.
  pub get_messages_pages :
      (fuel : ℕ)
      → length rows < fuel
      → read_pages request fuel [] w ≡ (some (built encoding rows), w)
  get_messages_pages fuel h =
      let (same, positive, small, again) = normalize_limit_range (limit_of r.limit) in
      read_all (to_nat (normalize_limit (limit_of r.limit))) same positive fuel h
