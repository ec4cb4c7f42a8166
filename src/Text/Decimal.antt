-- ===== src/Text/Decimal.antt =====
-- Numbers in decimal digits.
use Prim.Native.Nat.{◌/◌, ◌%◌, ◌*◌}
use be_modami_chat_service.Prelude.{
  ℕ, zero, suc, ◌+◌, ◌-◌, ◌≤◌, ◌≡◌, refl, ap, ◌∙◌, Bool, true, ◌&&◌, [], ◌∷◌, ◌++◌, leb, ltb, all,
  if◌then◌else◌, arith, inl, inr, Bool-cases,
}
use be_modami_chat_service.Text.{GoString}

-- The digits of a number of at most `fuel`.
unfoldable pub decimal : (fuel : ℕ) → ℕ → GoString
decimal zero n = (48 + n % 10) ∷ []
decimal (suc fuel) n =
    let more = decimal fuel (n / 10) ++ (48 + n % 10) ∷ [] in
    if ltb n 10 then (48 + n) ∷ [] else more

abbrev pub is_digit : ℕ → Bool
is_digit c = leb 48 c && leb c 57

-- The number of a text of digits, behind those that were read before.
unfoldable pub value_of : (so_far : ℕ) → GoString → ℕ
value_of so_far [] = so_far
value_of so_far (c ∷ s) = value_of (so_far * 10 + (c - 48)) s

value_of-append :
    (so_far d : ℕ) (s : GoString)
    → value_of so_far (s ++ d ∷ []) ≡ value_of so_far s * 10 + (d - 48)
unfolding value_of
value_of-append so_far d [] = refl
value_of-append so_far d (c ∷ s) = value_of-append (so_far * 10 + (c - 48)) d s

digits-append :
    (s : GoString) (d : ℕ)
    → all is_digit s ≡ true
    → is_digit d ≡ true
    → all is_digit (s ++ d ∷ []) ≡ true
digits-append [] d h k = ground arith
digits-append (c ∷ s) d h k = ground (arith, digits-append s d)

pub decimal-digits : (fuel n : ℕ) → all is_digit (decimal fuel n) ≡ true
unfolding decimal
decimal-digits zero n = ground arith
decimal-digits (suc fuel) n = elim (Bool-cases (ltb n 10)) [
  | inl small ↦ rw small (ground arith)
  | inr large ↦ rw large (
      digits-append (decimal fuel (n / 10)) (48 + n % 10) (decimal-digits fuel (n / 10))
        (ground arith))
]

-- A number is read back from its digits.
pub value_of-decimal : (fuel n : ℕ) → n ≤ fuel → value_of 0 (decimal fuel n) ≡ n
unfolding decimal value_of
value_of-decimal zero n h = omega arith
value_of-decimal (suc fuel) n h = elim (Bool-cases (ltb n 10)) [
  | inl small ↦ rw small (ground arith)
  | inr large ↦
      let less : n / 10 ≤ fuel = ground arith in
      let back = value_of-decimal fuel (n / 10) less in
      rw large (
        value_of-append 0 (48 + n % 10) (decimal fuel (n / 10))
        ∙ ap (λ (m : ℕ). m * 10 + (48 + n % 10 - 48)) back
        ∙ omega arith)
]
