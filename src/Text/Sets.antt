-- ===== src/Text/Sets.antt =====
-- Lists of strings that hold no string twice.
use be_modami_chat_service.Prelude.{
  ◌≡◌, refl, true, false, ◌||◌, List, [], ◌∷◌, ◌++◌, arith, any-append,
}
use be_modami_chat_service.Text.{GoString, ◌==◌, contains}
use be_modami_chat_service.Text.Laws.{eq_iff, eq_symm}

abbrev pub Distinct : List GoString → Type 0
Distinct [] = Unit
Distinct (x ∷ xs) = (contains xs x ≡ false) × Distinct xs

pub contains-append :
    (xs ys : List GoString) (u : GoString)
    → contains (xs ++ ys) u ≡ (contains xs u || contains ys u)
contains-append xs ys u = any-append (λ t. t == u) xs ys

pub Distinct-append_one :
    (xs : List GoString) (u : GoString)
    → Distinct xs
    → contains xs u ≡ false
    → Distinct (xs ++ u ∷ [])
Distinct-append_one [] u d h = (refl, tt)
Distinct-append_one (x ∷ xs) u (n, d) h = (
  ground (arith, contains-append xs (u ∷ []) x, eq_symm u x),
  Distinct-append_one xs u d (ground arith),
)

pub contains_of_eq :
    (xs : List GoString) (u v : GoString) → (u == v) ≡ true → contains xs u ≡ contains xs v
contains_of_eq xs u v h = ground (arith, eq_iff u v)
