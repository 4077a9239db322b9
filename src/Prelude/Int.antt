-- ===== src/Prelude/Int.antt =====
-- Signed integers over the native numbers: `negsuc n` is -(n + 1).
use Prim.Native.Nat.{ℕ, ◌/◌}
use mathlib.Core.Bool.{Bool, false}
use threadserver.Prelude.Tests.{leb}

pub data ℤ : Type 0 where
  pos : ℕ → ℤ
  negsuc : ℕ → ℤ

-- `n / 100 >= 4`; the division of C++ rounds towards zero, so a negative `n` fails the test.
abbrev pub is_error_code : ℤ → Bool
is_error_code (pos n) = leb 4 (n / 100)
is_error_code (negsuc n) = false
