-- ===== src/Text.antt =====
-- Go's strings: sequences of bytes, with the operators `==`, `<` and `+` on them.
pub mod Laws
pub mod Sets
pub mod Json
pub mod Decimal
use Prim.Native.Char.{code}
use be_modami_chat_service.Prelude.{
  ℕ, String, Bool, true, false, ◌&&◌, ◌||◌, List, [], ◌∷◌, ltb, eqb, if◌then◌else◌, any,
}

abbrev pub GoString : Type 0
GoString = List ℕ

-- The bytes of an ASCII literal.
abbrev pub bytes : String → GoString
bytes String.[] = []
bytes (String.◌∷◌ c s) = code c ∷ bytes s

infix 50 ◌==◌
unfoldable pub ◌==◌ : GoString → GoString → Bool
[] == [] = true
[] == (y ∷ t) = false
(x ∷ s) == [] = false
(x ∷ s) == (y ∷ t) = eqb x y && s == t

-- s < t: bytewise lexicographic order.
unfoldable pub str_lt : GoString → GoString → Bool
str_lt [] [] = false
str_lt [] (y ∷ t) = true
str_lt (x ∷ s) [] = false
str_lt (x ∷ s) (y ∷ t) = let rest = str_lt s t in if eqb x y then rest else ltb x y

abbrev pub is_empty : GoString → Bool
is_empty [] = true
is_empty (x ∷ s) = false

abbrev pub contains : List GoString → GoString → Bool
contains ss s = any (λ t. t == s) ss
