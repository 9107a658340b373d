-- ===== src/Base/Integer.antt =====
-- Go's `int`: `negsuc n` is -(n + 1).
use Prim.Native.Nat.{ℕ, ◌-◌, ◌%◌, ◌^◌}
use mathlib.Core.Bool.{Bool, true, false}
use grout_cni.Base.Tests.{ltb}

pub data ℤ : Type 0 where
  pos : ℕ → ℤ
  negsuc : ℕ → ℤ

-- The conversion uint16(x), which wraps.
unfoldable pub uint16 : ℤ → ℕ
uint16 (pos n) = n % 2 ^ 16
uint16 (negsuc n) = 2 ^ 16 - 1 - n % 2 ^ 16

-- x < 0
abbrev pub is_negative : ℤ → Bool
is_negative (pos n) = false
is_negative (negsuc n) = true

-- k < x, for k at least 0
abbrev pub exceeds : ℕ → ℤ → Bool
exceeds k (pos n) = ltb k n
exceeds k (negsuc n) = false
