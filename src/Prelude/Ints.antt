-- ===== src/Prelude/Ints.antt =====
-- Signed numbers, and the two's complement words that carry them. A word of w bits is split at its
-- half, 2 ^ (w - 1).
use Prim.Native.Nat.{ℕ, ◌-◌, ◌*◌, ◌<◌}
use mathlib.Core.Path.{◌≡◌}
use native.Mathlib.Omega.{arith}
use openspodes.Prelude.Tests.{ltb, if◌then◌else◌}

-- `negsuc n` is - (n + 1).
pub data ℤ : Type 0 where
  pos : ℕ → ℤ
  negsuc : ℕ → ℤ

-- The cast to the unsigned type, of a value that the signed type has.
unfoldable pub to_word : ℕ → ℤ → ℕ
to_word half (pos n) = n
to_word half (negsuc n) = 2 * half - 1 - n

-- The cast to the signed type.
unfoldable pub as_signed : ℕ → ℕ → ℤ
as_signed half n = if ltb n half then pos n else negsuc (2 * half - 1 - n)

abbrev pub IsSigned : ℕ → ℤ → Type 0
IsSigned half (pos n) = n < half
IsSigned half (negsuc n) = n < half

pub as_signed-to_word : (half : ℕ) (z : ℤ) → IsSigned half z → as_signed half (to_word half z) ≡ z
unfolding as_signed to_word
as_signed-to_word half (pos n) h = ground arith
as_signed-to_word half (negsuc n) h = ground arith

pub to_word-lt : (half : ℕ) (z : ℤ) → IsSigned half z → to_word half z < 2 * half
unfolding to_word
to_word-lt half (pos n) h = omega arith
to_word-lt half (negsuc n) h = omega arith

abbrev pub i8_half : ℕ
i8_half = 0x80

abbrev pub i16_half : ℕ
i16_half = 0x8000

abbrev pub i32_half : ℕ
i32_half = 0x80000000

abbrev pub i64_half : ℕ
i64_half = 0x8000000000000000
