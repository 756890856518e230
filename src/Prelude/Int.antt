-- ===== src/Prelude/Int.antt =====
-- Signed integers over the native numbers, under the library's names.
use Prim.Native.Nat.{ℕ, zero, suc, ◌+◌, ◌-◌, ◌*◌, ◌/◌}
use celery_diagnostics_obser.Prelude.Tests.{ltb, if◌then◌else◌}
use mathlib.Core.Bool.{Bool, true, false}
use mathlib.Core.Option.{Option, none, some}

-- `negsuc n` is -(n + 1).
pub data ℤ : Type 0 where
  pos : ℕ → ℤ
  negsuc : ℕ → ℤ

-- n != 0
abbrev pub is_nonzero : ℤ → Bool
is_nonzero (pos zero) = false
is_nonzero (pos (suc n)) = true
is_nonzero (negsuc n) = true

-- The number, if it is at least 0.
abbrev pub non_negative : ℤ → Option ℕ
non_negative (pos n) = some n
non_negative (negsuc n) = none

-- m < n
abbrev pub int_ltb : ℤ → ℤ → Bool
int_ltb (pos m) (pos n) = ltb m n
int_ltb (pos m) (negsuc n) = false
int_ltb (negsuc m) (pos n) = true
int_ltb (negsuc m) (negsuc n) = ltb n m

-- m + n
infixl 60 ◌+ℤ◌
abbrev pub ◌+ℤ◌ : ℤ → ℕ → ℤ
(pos m) +ℤ n = pos (m + n)
(negsuc m) +ℤ n = if ltb m n then pos (n - suc m) else negsuc (m - n)

-- The greatest multiple of d that is not above the number, for d above 0.
abbrev pub floor_to : ℕ → ℤ → ℤ
floor_to d (pos m) = pos (m / d * d)
floor_to d (negsuc m) = negsuc (m / d * d + (d - 1))
