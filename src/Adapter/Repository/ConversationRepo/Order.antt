-- ===== src/Adapter/Repository/ConversationRepo/Order.antt =====
-- The order of FindByUser (internal/adapter/repository/conversation_repo.go).
use be_modami_chat_service.Prelude.{
  ◌≡◌, true, false, List, [], ◌∷◌, map, arith, All, Bool-cases, inl, inr,
}
use be_modami_chat_service.Prelude.Sort.{place, sort_slice}
use be_modami_chat_service.Text.{GoString, contains, ◌==◌}
use be_modami_chat_service.Text.Laws.{eq_of_not_str_lt, eq_iff, eq_symm}
use be_modami_chat_service.Text.Sets.{Distinct}
use be_modami_chat_service.Domain.Conversation.{Conversation}
use be_modami_chat_service.Adapter.Repository.Paging.{cursor_lt, cursor_lt_trans, older, Descends}
use be_modami_chat_service.Adapter.Repository.ConversationRepo.{newer, conversation_cursor}

abbrev pub id_of : Conversation → GoString
id_of c = c.id

newer-older : (a b : Conversation) → newer a b ≡ older conversation_cursor (conversation_cursor a) b
unfolding newer cursor_lt
newer-older a b = ground arith

newer_total : (a b : Conversation) → (a.id == b.id) ≡ false → newer a b ≡ false → newer b a ≡ true
unfolding newer
newer_total a b h k = ground (arith, eq_of_not_str_lt a.id b.id, eq_iff a.id b.id)

All-place :
    (P : Conversation → Type 0) (x : Conversation) (ys : List Conversation)
    → P x
    → All P ys
    → All P (place newer x ys)
unfolding place
All-place P x [] px h = (px, tt)
All-place P x (y ∷ ys) px (py, h) = elim (Bool-cases (newer x y)) [
  | inl before ↦ rw before (px, (py, h))
  | inr after ↦ rw after (py, All-place P x ys px h)
]

All-sort :
    (P : Conversation → Type 0) (xs : List Conversation) → All P xs → All P (sort_slice newer xs)
unfolding sort_slice
All-sort P [] h = tt
All-sort P (x ∷ xs) (px, h) = All-place P x (sort_slice newer xs) px (All-sort P xs h)

abbrev Older : Conversation → Conversation → Type 0
Older x y = older conversation_cursor (conversation_cursor x) y ≡ true

Older-rest :
    (x y : Conversation) (ys : List Conversation) → Older x y → All (Older y) ys → All (Older x) ys
Older-rest x y [] h hs = tt
Older-rest x y (z ∷ zs) h (k, ks) = (
  cursor_lt_trans (conversation_cursor z) (conversation_cursor y) (conversation_cursor x) k h,
  Older-rest x y zs h ks,
)

place-Descends :
    (x : Conversation) (ys : List Conversation)
    → All (λ y. (x.id == y.id) ≡ false) ys
    → Descends conversation_cursor ys
    → Descends conversation_cursor (place newer x ys)
unfolding place
place-Descends x [] other h = (tt, tt)
place-Descends x (y ∷ ys) (n, other) (h, hs) = elim (Bool-cases (newer x y)) [
  | inl before ↦
      let first : Older x y = ground (arith, newer-older x y) in
      rw before ((first, Older-rest x y ys first h), (h, hs))
  | inr after ↦ rw after (
    All-place (Older y) x ys (ground (arith, newer-older y x, newer_total x y)) h,
    place-Descends x ys other hs,
  )
]

others :
    (x : Conversation) (xs : List Conversation)
    → contains (map id_of xs) x.id ≡ false
    → All (λ y. (x.id == y.id) ≡ false) xs
others x [] h = tt
others x (y ∷ ys) h = (ground (arith, eq_symm y.id x.id), others x ys (ground arith))

pub sort_slice-Descends :
    (xs : List Conversation)
    → Distinct (map id_of xs)
    → Descends conversation_cursor (sort_slice newer xs)
unfolding sort_slice
sort_slice-Descends [] d = tt
sort_slice-Descends (x ∷ xs) (n, d) =
    place-Descends x (sort_slice newer xs)
      (All-sort (λ y. (x.id == y.id) ≡ false) xs (others x xs n)) (sort_slice-Descends xs d)
