-- ===== src/Adapter/Repository/Paging/Walk.antt =====
-- Walking all pages of a list in descending order.
use mathlib.Core.Path.{subst}
use be_modami_chat_service.Prelude.{
  ℕ, zero, suc, ◌≡◌, refl, sym, ap, ◌∙◌, ◌≤◌, ◌<◌, true, List, [], ◌∷◌, ◌++◌, Option, none, some,
  arith, ltb, inl, inr, Bool-cases, length, take, drop, keep, length-append, map, All, take_all,
  take-append-drop, append_assoc, length-take,
}
use be_modami_chat_service.Result.{ok}
use be_modami_chat_service.Exec.{Exec}
use be_modami_chat_service.Domain.Cursor.{Cursor, PageResponse}
use be_modami_chat_service.Adapter.Repository.Paging.{
  last_of_split, first_page, older, Descends, keep-older, collect,
}

split_at :
    {A : Type 0} (xs : List A) (limit : ℕ) (pre ys : List A) (x : A) (init : List A)
    → xs ≡ pre ++ ys
    → take limit ys ≡ init ++ x ∷ []
    → xs ≡ (pre ++ init) ++ x ∷ drop limit ys
split_at xs limit pre ys x init eq last =
    eq
    ∙ ap (λ r. pre ++ r)
        (sym (take-append-drop limit ys)
          ∙ ap (λ r. r ++ drop limit ys) last
          ∙ append_assoc init (x ∷ []) (drop limit ys))
    ∙ sym (append_assoc pre init (x ∷ drop limit ys))

module _ {W A : Type 0} (key : A → Cursor) (xs : List A) (limit : ℕ)
    (fetch : Option Cursor → Exec W (PageResponse A)) (w : W) (descending : Descends key xs)
    (positive : 1 ≤ limit)
    (before : (c : Cursor)
      → fetch (some c) w ≡ (ok (first_page key limit (keep (older key c) xs)), w)) where
  next_page :
      (pre ys : List A) (x : A) (init : List A)
      → xs ≡ pre ++ ys
      → take limit ys ≡ init ++ x ∷ []
      → fetch (some (key x)) w ≡ (ok (first_page key limit (drop limit ys)), w)
  next_page pre ys x init eq last =
      let split = split_at xs limit pre ys x init eq last in
      before (key x)
      ∙ ap (λ r. (ok (first_page key limit r), w))
          (ap (keep (older key (key x))) split
            ∙ keep-older key (pre ++ init) x (drop limit ys)
                (subst (Descends key) split descending))

  positive_take : (ys : List A) → ltb limit (length ys) ≡ true → 1 ≤ length (take limit ys)
  positive_take ys more = ground (arith, length-take limit ys)

  smaller_drop :
      (ys : List A) (n : ℕ)
      → ltb limit (length ys) ≡ true
      → length ys ≤ n
      → length (drop limit ys) < n
  smaller_drop ys n more h = ground (
    arith,
    length-take limit ys,
    length-append (take limit ys) (drop limit ys),
    take-append-drop limit ys,
  )

  collect_suffix :
      (fuel : ℕ) (c : Option Cursor) (pre ys : List A)
      → xs ≡ pre ++ ys
      → length ys < fuel
      → fetch c w ≡ (ok (first_page key limit ys), w)
      → collect fetch fuel c w ≡ (ok ys, w)
  unfolding first_page collect
  collect_suffix zero c pre ys eq h page = absurd (omega arith)
  collect_suffix (suc fuel) c pre ys eq h page = elim (Bool-cases (ltb limit (length ys))) [
    | inl more ↦
        let (init, x, last, eq') = last_of_split (take limit ys) (positive_take ys more) in
        rw (page, more, last)
          (rw
            (collect_suffix fuel (some (key x)) (pre ++ take limit ys) (drop limit ys)
              (eq
                ∙ ap (λ r. pre ++ r) (sym (take-append-drop limit ys))
                ∙ sym (append_assoc pre (take limit ys) (drop limit ys)))
              (smaller_drop ys fuel more (omega arith)) (next_page pre ys x init eq eq'))
            (ap (λ r. (ok r, w)) (take-append-drop limit ys)))
    | inr done ↦ rw (page, done, take_all limit ys (ground arith)) refl
  ]

  pub collect_pages :
      (fuel : ℕ)
      → length xs < fuel
      → fetch none w ≡ (ok (first_page key limit xs), w)
      → collect fetch fuel none w ≡ (ok xs, w)
  collect_pages fuel h first = collect_suffix fuel none [] xs refl h first

module _ {A B : Type 0} (f : A → B) (key : B → Cursor) where
  pub map-keep :
      (c : Cursor) (xs : List A)
      → map f (keep (older (λ x. key (f x)) c) xs) ≡ keep (older key c) (map f xs)
  map-keep c [] = refl
  map-keep c (x ∷ xs) = ground (arith, map-keep c xs)

  pub map-take : (n : ℕ) (xs : List A) → map f (take n xs) ≡ take n (map f xs)
  map-take zero xs = refl
  map-take (suc n) [] = refl
  map-take (suc n) (x ∷ xs) = ap (λ r. f x ∷ r) (map-take n xs)

  All-map :
      (c : Cursor) (xs : List A)
      → All (λ y. older (λ x. key (f x)) c y ≡ true) xs
      → All (λ y. older key c y ≡ true) (map f xs)
  All-map c [] h = tt
  All-map c (x ∷ xs) (h, hs) = (h, All-map c xs hs)

  pub Descends-map : (xs : List A) → Descends (λ x. key (f x)) xs → Descends key (map f xs)
  Descends-map [] h = tt
  Descends-map (x ∷ xs) (h, hs) = (All-map (key (f x)) xs h, Descends-map xs hs)
