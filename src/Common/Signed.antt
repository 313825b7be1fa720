-- ===== src/Common/Signed.antt =====
-- Signed integers over the native numbers, and the two's complement reading of 32 bits.
use Prim.Native.Nat.{ℕ, suc, ◌-◌, ◌^◌}
use reac_jack.Common.Test.{ltb, if◌then◌else◌}

-- `negsuc n` is -(n + 1).
pub data ℤ : Type 0 where
  pos : ℕ → ℤ
  negsuc : ℕ → ℤ

-- `(int32_t)w` of a 32-bit pattern.
abbrev pub int32 : ℕ → ℤ
int32 w = if ltb w (2 ^ 31) then pos w else negsuc (2 ^ 32 - w - 1)

-- `(uint32_t)v` of an int32_t.
abbrev pub uint32_of : ℤ → ℕ
uint32_of (pos n) = n
uint32_of (negsuc n) = 2 ^ 32 - suc n
