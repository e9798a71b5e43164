-- ===== src/Prelude/Ints.antt =====
-- Signed integers over the native numbers, for the source's int64 values.
use Prim.Native.Nat.{ℕ, ◌+◌, ◌-◌, ◌%◌, ◌^◌}
use qptools.Prelude.Tests.{ltb, if◌then◌else◌}

-- `negsuc n` is -(n + 1).
pub data ℤ : Type 0 where
  pos : ℕ → ℤ
  negsuc : ℕ → ℤ

-- `int64(u)` of a uint64: the same 64 bits, read as a signed number.
abbrev pub int64 : ℕ → ℤ
int64 u = if ltb u (2 ^ 63) then pos u else negsuc (2 ^ 64 - u - 1)

-- The 64 bits of a signed number, and the sum of two int64 values.
abbrev pub bits64 : ℤ → ℕ
bits64 (pos n) = n % 2 ^ 64
bits64 (negsuc n) = (2 ^ 64 - 1 - n) % 2 ^ 64

abbrev pub add64 : ℤ → ℤ → ℤ
add64 a b = int64 ((bits64 a + bits64 b) % 2 ^ 64)
