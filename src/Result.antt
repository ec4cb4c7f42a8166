-- ===== src/Result.antt =====
-- internal/domain/errors.go, and the errors that the code passes on: Go's (value, error) pairs as
-- values of `Result`.
use be_modami_chat_service.Prelude.{ℕ, ◌≡◌, refl, String, Bool, true, false, ◌⊎◌, inl, inr, eqb}

-- The sentinel values, the library's `gocql.ErrNotFound` and `redis.Nil` among them.
pub data Sentinel : Type 0 where
  not_found not_chat_member unauthorized already_member group_full duplicate_message : Sentinel
  duplicate_conversation reaction_limit_reached rate_limited forbidden message_deleted : Sentinel
  gocql_not_found redis_nil : Sentinel

abbrev index : Sentinel → ℕ
index not_found = 0
index not_chat_member = 1
index unauthorized = 2
index already_member = 3
index group_full = 4
index duplicate_message = 5
index duplicate_conversation = 6
index reaction_limit_reached = 7
index rate_limited = 8
index forbidden = 9
index message_deleted = 10
index gocql_not_found = 11
index redis_nil = 12

-- `wrapped` is `fmt.Errorf("...: %w", err)`; `external` is any other error of a library.
pub data Error : Type 0 where
  sentinel : Sentinel → Error
  validation : String → Error
  wrapped : String → Error → Error
  external : String → Error

-- err == target, where the target is a sentinel.
unfoldable pub is_sentinel : Error → Sentinel → Bool
is_sentinel (sentinel s) t = eqb (index s) (index t)
is_sentinel e t = false

-- errors.Is(err, target)
unfoldable pub errors_is : Error → Sentinel → Bool
errors_is (sentinel s) t = eqb (index s) (index t)
errors_is (validation m) t = false
errors_is (wrapped m e) t = errors_is e t
errors_is (external m) t = false

-- IsValidationError: errors.As follows the same chain.
unfoldable pub is_validation_error : Error → Bool
is_validation_error (sentinel s) = false
is_validation_error (validation m) = true
is_validation_error (wrapped m e) = is_validation_error e
is_validation_error (external m) = false

pub data Result {ℓ} (A : Type ℓ) : Type ℓ where
  ok : A → Result A
  err : Error → Result A

infixl 10 ◌>>=◌
abbrev pub ◌>>=◌ {ℓ κ} : {A : Type ℓ} {B : Type κ} → Result A → (A → Result B) → Result B
ok a >>= f = f a
err e >>= f = err e

pub Result-cases {ℓ} :
    {A : Type ℓ} (r : Result A) → ((a : A) × (r ≡ ok a)) ⊎ ((e : Error) × (r ≡ err e))
Result-cases (ok a) = inl (a, refl)
Result-cases (err e) = inr (e, refl)

abbrev pub is_ok {ℓ} : {A : Type ℓ} → Result A → Bool
is_ok (ok a) = true
is_ok (err e) = false
