-- ===== src/Exec.antt =====
-- Calls that use the outside world `W` and may fail: Go's functions with a context and an error.
-- What was done before an error stays done.
use be_modami_chat_service.Prelude.{String, Bool, true, false, ◌≡◌, refl, ◌⊎◌, inl, inr}
use be_modami_chat_service.Result.{Error, Sentinel, sentinel, wrapped, Result, ok, err}

abbrev pub Exec : Type 0 → Type 0 → Type 0
Exec W A = W → Result A × W

abbrev pub wrap_result : {A : Type 0} → String → Result A → Result A
wrap_result msg (ok a) = ok a
wrap_result msg (err e) = err (wrapped msg e)

module _ {W A : Type 0} where
  abbrev pub pure : A → Exec W A
  pure a w = (ok a, w)

  abbrev pub raise : Error → Exec W A
  raise e w = (err e, w)

  abbrev pub lift : Result A → Exec W A
  lift r w = (r, w)

  -- A call that cannot fail, such as time.Now.
  abbrev pub total : (W → A × W) → Exec W A
  total f w = let (a, w') = f w in (ok a, w')

  -- if err != nil { return fmt.Errorf("msg: %w", err) }
  abbrev pub wrap : String → Exec W A → Exec W A
  wrap msg m w = let (r, w') = m w in (wrap_result msg r, w')

  -- if err := ...; err != nil { logger.Error(...) }
  abbrev pub best_effort : Exec W A → Exec W (Unit {0})
  best_effort m w = let (r, w') = m w in (ok tt, w')

-- if !b { return e }
abbrev pub require : {W : Type 0} → Bool → Sentinel → Exec W (Unit {0})
require true e w = (ok tt, w)
require false e w = (err (sentinel e), w)

module _ {W A B : Type 0} where
  abbrev pub continue : (A → Exec W B) → Result A × W → Result B × W
  continue f (ok a, w) = f a w
  continue f (err e, w) = (err e, w)

  infixl 10 ◌>>=◌ ◌>>◌
  abbrev pub ◌>>=◌ : Exec W A → (A → Exec W B) → Exec W B
  ◌>>=◌ m f w = continue f (m w)

  abbrev pub ◌>>◌ : Exec W A → Exec W B → Exec W B
  m >> n = m >>= λ _. n

pub run-cases :
    {W A : Type 0} (r : Result A × W)
    → ((a : A) × (w : W) × (r ≡ (ok a, w))) ⊎ ((e : Error) × (w : W) × (r ≡ (err e, w)))
run-cases (ok a, w) = inl (a, w, refl)
run-cases (err e, w) = inr (e, w, refl)
