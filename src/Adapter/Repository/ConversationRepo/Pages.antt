-- ===== src/Adapter/Repository/ConversationRepo/Pages.antt =====
-- FindByUser (internal/adapter/repository/conversation_repo.go) page after page.
use mathlib.Core.List.{Perm}
use be_modami_chat_service.Prelude.{
  ℕ, zero, suc, ◌≡◌, refl, sym, ap, ◌∙◌, ◌+◌, ◌-◌, ◌≤◌, ◌<◌, true, false, List, [], ◌∷◌, Option,
  none, some, arith, ltb, inl, inr, Bool-cases, if◌then◌else◌, length, take, drop, keep, map, All,
  take_all,
}
use be_modami_chat_service.Prelude.Int.{pos}
use be_modami_chat_service.Prelude.Sort.{sort_slice, sort_slice-perm}
use be_modami_chat_service.Text.{GoString}
use be_modami_chat_service.Text.Sets.{Distinct}
use be_modami_chat_service.Result.{ok}
use be_modami_chat_service.Exec.{Exec}
use be_modami_chat_service.Domain.Cursor.{Cursor, PageResponse}
use be_modami_chat_service.Domain.Conversation.{Conversation, Participant, LastMessage}
use be_modami_chat_service.Adapter.Repository.Session.{Session}
use be_modami_chat_service.Adapter.Repository.Codec.{Codec}
use be_modami_chat_service.Adapter.Repository.MessageRepo.{page_limit}
use be_modami_chat_service.Adapter.Repository.Paging.{
  first_page, older, Descends, collect, cursor_lt_trans,
}
use be_modami_chat_service.Adapter.Repository.Paging.Walk.{collect_pages}
use be_modami_chat_service.Adapter.Repository.ConversationRepo.{
  newer, conversation_cursor, first_older, start_of, slice_page, load, find_by_user, page_of_ids,
}
use be_modami_chat_service.Adapter.Repository.ConversationRepo.Order.{id_of, sort_slice-Descends}

length-drop : {A : Type 0} (n : ℕ) (xs : List A) → length (drop n xs) ≡ length xs - n
length-drop zero xs = omega arith
length-drop (suc n) [] = omega arith
length-drop (suc n) (x ∷ xs) = omega (arith, length-drop n xs)

first_older_bound : (c : Cursor) (xs : List Conversation) → first_older c xs ≤ length xs
unfolding first_older
first_older_bound c [] = omega arith
first_older_bound c (x ∷ xs) = ground (arith, first_older_bound c xs)

start_bound : (c : Option Cursor) (xs : List Conversation) → start_of c xs ≤ length xs
start_bound none xs = omega arith
start_bound (some c) xs = first_older_bound c xs

keep-older_all :
    (c : Cursor) (x : Conversation) (ys : List Conversation)
    → older conversation_cursor c x ≡ true
    → All (λ y. older conversation_cursor (conversation_cursor x) y ≡ true) ys
    → keep (older conversation_cursor c) ys ≡ ys
keep-older_all c x [] h hs = refl
keep-older_all c x (y ∷ ys) h (k, ks) =
    rw
      (
        cursor_lt_trans (conversation_cursor y) (conversation_cursor x) c k h,
        keep-older_all c x ys h ks,
      )
      refl

-- In descending order, what the loop leaves is what is older than the cursor.
drop-first_older :
    (c : Cursor) (xs : List Conversation)
    → Descends conversation_cursor xs
    → drop (first_older c xs) xs ≡ keep (older conversation_cursor c) xs
unfolding first_older
drop-first_older c [] h = refl
drop-first_older c (x ∷ xs) (h, hs) = elim (Bool-cases (older conversation_cursor c x)) [
  | inl cut ↦ rw (cut, keep-older_all c x xs cut h) refl
  | inr skip ↦ rw skip (drop-first_older c xs hs ∙ refl)
]

limit_of_page : (limit : ℕ) → 1 ≤ limit → page_limit (pos limit) ≡ limit
limit_of_page limit h = ground arith

same_more :
    (start limit : ℕ) (xs : List Conversation)
    → start ≤ length xs
    → ltb (start + limit) (length xs) ≡ ltb limit (length (drop start xs))
same_more start limit xs h = ground (arith, length-drop start xs)

same_items :
    (start limit : ℕ) (xs : List Conversation)
    → start ≤ length xs
    → take
        ((if ltb (length xs) (start + limit) then length xs else start + limit) - start)
        (drop start xs)
      ≡ take limit (drop start xs)
same_items start limit xs h = elim (Bool-cases (ltb (length xs) (start + limit))) [
  | inl beyond ↦ rw beyond (
      take_all (length xs - start) (drop start xs) (omega (arith, length-drop start xs))
      ∙ sym (take_all limit (drop start xs) (ground (arith, length-drop start xs))))
  | inr inside ↦ rw inside (ap (λ n. take n (drop start xs)) (omega arith))
]

slice-first :
    (c : Option Cursor) (limit : ℕ) (xs : List Conversation)
    → 1 ≤ limit
    → slice_page (record { cursor = c; limit = pos limit }) xs
      ≡ first_page conversation_cursor limit (drop (start_of c xs) xs)
unfolding slice_page first_page
slice-first c limit xs h =
    let bound = start_bound c xs in
    rw
      (
        limit_of_page limit h,
        same_more (start_of c xs) limit xs bound,
        same_items (start_of c xs) limit xs bound,
      )
      refl

no_more : (n : ℕ) → ltb n 0 ≡ false
no_more n = ground arith

first_page_empty :
    (limit : ℕ)
    → first_page conversation_cursor limit []
      ≡ record { items = []; next_cursor = none; has_more = false }
unfolding first_page
first_page_empty zero = refl
first_page_empty (suc limit) = rw (no_more (suc limit)) refl

empty_start : (c : Option Cursor) → drop {A = Conversation} (start_of c []) [] ≡ []
unfolding first_older
empty_start none = refl
empty_start (some c) = refl

slice_empty :
    (c : Option Cursor) (limit : ℕ)
    → 1 ≤ limit
    → slice_page (record { cursor = c; limit = pos limit }) []
      ≡ record { items = []; next_cursor = none; has_more = false }
slice_empty c limit h =
    slice-first c limit [] h
    ∙ ap (first_page conversation_cursor limit) (empty_start c)
    ∙ first_page_empty limit

-- One request of the walk.
abbrev pub fetch :
    {W : Type 0}
    → Session W
    → Codec (List Participant)
    → Codec LastMessage
    → (user_id : GoString) → (limit : ℕ) → Option Cursor
    → Exec W (PageResponse Conversation)
fetch session participants_json last_message_json user_id limit c =
    find_by_user session participants_json last_message_json user_id
      (record { cursor = c; limit = pos limit })

module _ {W : Type 0} (session : Session W) (participants_json : Codec (List Participant))
    (last_message_json : Codec LastMessage) (user_id : GoString) (ids : List GoString)
    (convs : List Conversation) (w : W)
    (listed : session.select_user_conversations user_id w ≡ (ok ids, w))
    (loaded : load session participants_json last_message_json ids w ≡ (ok convs, w))
    (distinct : Distinct (map id_of convs)) (limit : ℕ) (positive : 1 ≤ limit) where
  abbrev sorted : List Conversation
  sorted = sort_slice newer convs

  page_of_loaded :
      (c : Option Cursor) (ids' : List GoString) (convs' : List Conversation)
      → load session participants_json last_message_json ids' w ≡ (ok convs', w)
      → page_of_ids session participants_json last_message_json
          (record { cursor = c; limit = pos limit })
          ids'
          w
        ≡ (ok (slice_page (record { cursor = c; limit = pos limit }) (sort_slice newer convs')), w)
  unfolding load sort_slice
  page_of_loaded c [] [] eq = ap (λ r. (ok r, w)) (sym (slice_empty c limit positive))
  page_of_loaded c [] (conv ∷ convs') eq = absurd cc
  page_of_loaded c (id ∷ ids') convs' eq = rw eq refl

  page_of :
      (c : Option Cursor)
      → fetch session participants_json last_message_json user_id limit c w
        ≡ (ok (first_page conversation_cursor limit (drop (start_of c sorted) sorted)), w)
  unfolding find_by_user
  page_of c =
      rw (listed, find_by_user)
        (page_of_loaded c ids convs loaded
          ∙ ap (λ r. (ok r, w)) (slice-first c limit sorted positive))

  descending : Descends conversation_cursor sorted
  descending = sort_slice-Descends convs distinct

  before :
      (c : Cursor)
      → fetch session participants_json last_message_json user_id limit (some c) w
        ≡ (ok (first_page conversation_cursor limit (keep (older conversation_cursor c) sorted)), w)
  before c =
      page_of (some c)
      ∙ ap (λ xs. (ok (first_page conversation_cursor limit xs), w))
          (drop-first_older c sorted descending)

  -- A client that follows the cursors of FindByUser gets every conversation of the user that its
  -- index leads to once, the latest updated first, whatever positive limit it asks for, if the index
  -- and the rows can be read, doing nothing else, no conversation is listed twice, and it asks at
  -- least once more than there are conversations.
  pub find_by_user_pages :
      (fuel : ℕ)
      → length sorted < fuel
      → (collect (fetch session participants_json last_message_json user_id limit) fuel none w
          ≡ (ok sorted, w))
        × Perm sorted convs
        × Descends conversation_cursor sorted
  find_by_user_pages fuel h = (
    collect_pages conversation_cursor sorted limit
        (fetch session participants_json last_message_json user_id limit) w descending positive
        before fuel h (page_of none),
    sort_slice-perm newer convs,
    descending,
  )
