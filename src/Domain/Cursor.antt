-- ===== src/Domain/Cursor.antt =====
-- internal/domain/cursor.go
use be_modami_chat_service.Prelude.{
  ℕ, ◌≡◌, refl, ◌≤◌, Bool, List, Option, arith, if◌then◌else◌, Time,
}
use be_modami_chat_service.Prelude.Int.{ℤ, pos, negsuc, int_leb, int_gtb, to_nat}
use be_modami_chat_service.Text.{GoString}

pub record Cursor : Type 0 where
  pub created_at : Time
  pub id : GoString

pub record PageRequest : Type 0 where
  pub cursor : Option Cursor
  pub limit : ℤ

pub record PageResponse {ℓ} (T : Type ℓ) : Type ℓ where
  pub items : List T
  pub next_cursor : Option Cursor
  pub has_more : Bool

abbrev pub default_page_size : ℕ
default_page_size = 50

abbrev pub max_page_size : ℕ
max_page_size = 100

unfoldable pub normalize_limit : ℤ → ℤ
normalize_limit limit =
    if int_leb limit 0
    then pos default_page_size
    else if int_gtb limit max_page_size
    then pos max_page_size
    else limit

-- Whatever limit a client asks for, the normalised one lies from 1 to 100, and normalising it again
-- changes nothing.
pub normalize_limit_range :
    (limit : ℤ)
    → (normalize_limit limit ≡ pos (to_nat (normalize_limit limit)))
      × (1 ≤ to_nat (normalize_limit limit))
      × (to_nat (normalize_limit limit) ≤ max_page_size)
      × (normalize_limit (normalize_limit limit) ≡ normalize_limit limit)
unfolding normalize_limit
normalize_limit_range (negsuc m) = (refl, omega arith, omega arith, refl)
normalize_limit_range (pos m) = (ground arith, ground arith, ground arith, ground arith)
