-- ===== src/Text/Laws.antt =====
-- Equality of strings is decided by `==`, and `<` is a strict total order.
use be_modami_chat_service.Prelude.{◌≡◌, refl, ◌↔◌, true, false, [], ◌∷◌, arith}
use be_modami_chat_service.Text.{GoString, ◌==◌, str_lt}

pub eq_refl : (s : GoString) → (s == s) ≡ true
unfolding ◌==◌
eq_refl [] = refl
eq_refl (x ∷ s) = ground (arith, eq_refl s)

pub eq_iff : (s t : GoString) → ((s == t) ≡ true) ↔ (s ≡ t)
unfolding ◌==◌
eq_iff [] [] = (λ _. refl, λ _. refl)
eq_iff [] (y ∷ t) = (λ h. cc, λ h. cc)
eq_iff (x ∷ s) [] = (λ h. cc, λ h. cc)
eq_iff (x ∷ s) (y ∷ t) = (λ h. ground (arith, eq_iff s t), λ h. ground (arith, eq_iff s t))

pub eq_symm : (s t : GoString) → (s == t) ≡ (t == s)
eq_symm s t = ground (arith, eq_iff s t, eq_iff t s)

pub str_lt_irrefl : (s : GoString) → str_lt s s ≡ false
unfolding str_lt
str_lt_irrefl [] = refl
str_lt_irrefl (x ∷ s) = ground (arith, str_lt_irrefl s)

pub str_lt_asymm : (s t : GoString) → str_lt s t ≡ true → str_lt t s ≡ false
unfolding str_lt
str_lt_asymm [] [] h = cc
str_lt_asymm [] (y ∷ t) h = refl
str_lt_asymm (x ∷ s) [] h = cc
str_lt_asymm (x ∷ s) (y ∷ t) h = ground (arith, str_lt_asymm s t)

pub eq_of_not_str_lt : (s t : GoString) → str_lt s t ≡ false → str_lt t s ≡ false → s ≡ t
unfolding str_lt
eq_of_not_str_lt [] [] h k = refl
eq_of_not_str_lt [] (y ∷ t) h k = cc
eq_of_not_str_lt (x ∷ s) [] h k = cc
eq_of_not_str_lt (x ∷ s) (y ∷ t) h k = ground (arith, eq_of_not_str_lt s t)

pub str_lt_trans : (s t u : GoString) → str_lt s t ≡ true → str_lt t u ≡ true → str_lt s u ≡ true
unfolding str_lt
str_lt_trans [] t [] h k = ground arith
str_lt_trans [] t (z ∷ u) h k = refl
str_lt_trans (x ∷ s) [] u h k = cc
str_lt_trans (x ∷ s) (y ∷ t) [] h k = cc
str_lt_trans (x ∷ s) (y ∷ t) (z ∷ u) h k = ground (arith, str_lt_trans s t u)
