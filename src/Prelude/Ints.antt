-- ===== src/Prelude/Ints.antt =====
-- Signed machine integers, over the native naturals: two's complement and the arithmetic shift.
use Prim.Native.Nat.{ℕ, ◌-◌, ◌/◌, ◌%◌, ◌^◌}
use mathlib.Core.Bool.{Bool, true, false}
use rustflow.Prelude.Tests.{ltb, if◌then◌else◌}

-- `negsuc n` is -(n + 1).
pub data ℤ : Type 0 where
  pos : ℕ → ℤ
  negsuc : ℕ → ℤ

-- The signed integer of `w` bits whose bits are those of `v`.
unfoldable pub signed : ℕ → ℕ → ℤ
signed w v = if ltb v (2 ^ (w - 1)) then pos v else negsuc (2 ^ w - 1 - v)

-- `>>` of a signed integer rounds down.
unfoldable pub shift_right : ℕ → ℤ → ℤ
shift_right k (pos n) = pos (n / 2 ^ k)
shift_right k (negsuc n) = negsuc (n / 2 ^ k)

-- The difference of two naturals.
unfoldable pub sub_ints : ℕ → ℕ → ℤ
sub_ints a b = if ltb a b then negsuc (b - a - 1) else pos (a - b)

-- The bits of a signed integer, `as` an unsigned one of `w` bits.
unfoldable pub bits : ℕ → ℤ → ℕ
bits w (pos n) = n % 2 ^ w
bits w (negsuc n) = 2 ^ w - 1 - n % 2 ^ w

unfoldable pub is_negative : ℤ → Bool
is_negative (pos n) = false
is_negative (negsuc n) = true
