-- ===== src/Adapter/Repository/Paging.antt =====
-- Pages of a list in descending order of (time, id), each asked for with the cursor of the page
-- before: what FindByConversation and FindByUser have in common.
pub mod Walk
use be_modami_chat_service.Prelude.{
  ℕ, zero, suc, ◌≡◌, refl, ap, ◌≤◌, ◌<◌, Bool, true, false, ◌&&◌, ◌||◌, List, [], ◌∷◌, ◌++◌, Option,
  none, some, arith, ltb, eqb, if◌then◌else◌, length, take, drop, keep, All, String,
}
use be_modami_chat_service.Text.{str_lt}
use be_modami_chat_service.Text.Laws.{str_lt_irrefl, str_lt_asymm, str_lt_trans}
use be_modami_chat_service.Result.{ok, err, external}
use be_modami_chat_service.Exec.{Exec, pure, raise, continue, ◌>>=◌}
use be_modami_chat_service.Domain.Cursor.{Cursor, PageResponse}

module _ {A : Type 0} where
  abbrev pub last_of : List A → Option A
  last_of [] = none
  last_of (x ∷ []) = some x
  last_of (x ∷ y ∷ xs) = last_of (y ∷ xs)

-- a is older than b: (a.created_at, a.id) < (b.created_at, b.id)
unfoldable pub cursor_lt : Cursor → Cursor → Bool
cursor_lt a b = ltb a.created_at b.created_at || (eqb a.created_at b.created_at && str_lt a.id b.id)

pub cursor_lt_asymm : (a b : Cursor) → cursor_lt a b ≡ true → cursor_lt b a ≡ false
unfolding cursor_lt
cursor_lt_asymm a b h = ground (arith, str_lt_asymm a.id b.id)

pub cursor_lt_irrefl : (a : Cursor) → cursor_lt a a ≡ false
unfolding cursor_lt
cursor_lt_irrefl a = ground (arith, str_lt_irrefl a.id)

pub cursor_lt_trans :
    (a b c : Cursor) → cursor_lt a b ≡ true → cursor_lt b c ≡ true → cursor_lt a c ≡ true
unfolding cursor_lt
cursor_lt_trans a b c h k = ground (arith, str_lt_trans a.id b.id c.id)

pub last_of_split :
    {A : Type 0} (xs : List A)
    → 1 ≤ length xs
    → (init : List A) × (x : A) × (last_of xs ≡ some x) × (xs ≡ init ++ x ∷ [])
last_of_split [] h = absurd (omega arith)
last_of_split (x ∷ []) h = ([], x, refl, refl)
last_of_split (x ∷ y ∷ xs) h =
    let (init, z, last, eq) = last_of_split (y ∷ xs) (omega arith) in
    (x ∷ init, z, last, ap (λ r. x ∷ r) eq)

module _ {A : Type 0} (key : A → Cursor) where
  -- The cursor of the last item, for the next page.
  abbrev pub next_of : Option A → Option Cursor
  next_of none = none
  next_of (some x) = some (key x)

  -- The first `limit` items of a list as a page.
  unfoldable pub first_page : ℕ → List A → PageResponse A
  first_page limit xs =
      let has_more = ltb limit (length xs) in
      record {
        items = take limit xs;
        next_cursor = if has_more then next_of (last_of (take limit xs)) else none;
        has_more = has_more;
      }

  abbrev pub older : Cursor → A → Bool
  older c x = cursor_lt (key x) c

  -- Every item is older than those before it.
  abbrev pub Descends : List A → Type 0
  Descends [] = Unit
  Descends (x ∷ xs) = All (λ y. older (key x) y ≡ true) xs × Descends xs

  keep_all :
      (x : A) (ys : List A) → All (λ y. older (key x) y ≡ true) ys → keep (older (key x)) ys ≡ ys
  keep_all x [] h = refl
  keep_all x (y ∷ ys) (h, hs) = rw (h, keep_all x ys hs) refl

  All-middle :
      (c : Cursor) (pre : List A) (x : A) (ys : List A)
      → All (λ y. older c y ≡ true) (pre ++ x ∷ ys)
      → older c x ≡ true
  All-middle c [] x ys (h, hs) = h
  All-middle c (p ∷ pre) x ys (h, hs) = All-middle c pre x ys hs

  -- What is older than an item is what comes behind it.
  pub keep-older :
      (pre : List A) (x : A) (ys : List A)
      → Descends (pre ++ x ∷ ys)
      → keep (older (key x)) (pre ++ x ∷ ys) ≡ ys
  keep-older [] x ys (h, hs) = rw (cursor_lt_irrefl (key x)) (keep_all x ys h)
  keep-older (p ∷ pre) x ys (h, hs) =
      rw (cursor_lt_asymm (key x) (key p) (All-middle (key p) pre x ys h)) (keep-older pre x ys hs)

module _ {W A : Type 0} where
  -- A client that asks for page after page until there is no cursor.
  abbrev gather : (Option Cursor → Exec W (List A)) → PageResponse A → Exec W (List A)
  gather rest page = elim page.next_cursor [
    | none ↦ pure page.items
    | some c ↦ (rest (some c) >>= λ more. pure (page.items ++ more))
  ]

  unfoldable pub collect :
      (Option Cursor → Exec W (PageResponse A)) → (fuel : ℕ) → Option Cursor → Exec W (List A)
  collect fetch zero c w = (ok [], w)
  collect fetch (suc fuel) c w = continue (gather (collect fetch fuel)) (fetch c w)
