-- ===== src/Service/Rules.antt =====
-- How a run of a traced service ends, and a rule for a call that cannot fail.
use be_modami_chat_service.Prelude.{◌≡◌, Bool}
use be_modami_chat_service.Exec.{Exec, continue, ◌>>◌}
use be_modami_chat_service.Result.{Error, Result, ok, err}
use be_modami_chat_service.Service.Traced.{Call, Entry}

abbrev pub entry : Call → Bool → Entry
entry c b = record { call = c; succeeded = b }

module _ {W A : Type 0} where
  -- A run ends in `P` with its value, or in `E` with its error.
  abbrev pub Ends : (A → W → Type 0) → (Error → W → Type 0) → Result A × W → Type 0
  Ends P E (ok a, w) = P a w
  Ends P E (err e, w) = E e w

module _ {W B : Type 0} (P : B → W → Type 0) (E : Error → W → Type 0) where
  pub ok_rule :
      (m : Exec W (Unit {0})) (n : Exec W B) (w : W)
      → (m w).0 ≡ ok tt
      → Ends P E (n (m w).1)
      → Ends P E ((m >> n) w)
  ok_rule m n w h k = go (m w) h k
    where
      go :
          (r : Result (Unit {0}) × W)
          → r.0 ≡ ok tt
          → Ends P E (n r.1)
          → Ends P E (continue (λ _. n) r)
      go (ok a, w') h' k' = k'
      go (err e, w') h' k' = cc
