-- ===== src/Prelude/Int.antt =====
-- Go's `int` as a signed integer; `negsuc n` is -(n + 1).
use Prim.Native.Nat.{ℕ}
use mathlib.Core.Bool.{Bool, true, false}
use be_modami_chat_service.Prelude.Tests.{ltb, leb}

pub data ℤ : Type 0 where
  pos : ℕ → ℤ
  negsuc : ℕ → ℤ

-- The value, where it is not negative.
abbrev pub to_nat : ℤ → ℕ
to_nat (pos n) = n
to_nat (negsuc n) = 0

-- x <= n and x > n, against a number that is not negative.
abbrev pub int_leb : ℤ → ℕ → Bool
int_leb (pos m) n = leb m n
int_leb (negsuc m) n = true

abbrev pub int_gtb : ℤ → ℕ → Bool
int_gtb (pos m) n = ltb n m
int_gtb (negsuc m) n = false
