-- ===== src/Prelude/Int.antt =====
-- Integers over the native numbers, and two's complement at any width.
use Prim.Native.Nat.{ℕ, ◌-◌, ◌*◌, ◌%◌, ◌<◌}
use mathlib.Core.Path.{◌≡◌}
use mathlib.Core.Bool.{Bool, true, false}
use native.Mathlib.Omega.{arith}
use native.Mathlib.Nat.{mod-eq_of_lt}
use phantasma_sdk_rs.Prelude.Tests.{ltb, if◌then◌else◌}

-- `negsuc n` is -(n + 1).
pub data ℤ : Type 0 where
  pos : ℕ → ℤ
  negsuc : ℕ → ℤ

abbrev pub is_negative : ℤ → Bool
is_negative (pos n) = false
is_negative (negsuc n) = true

-- The range of a signed integer of which `half` is the number of its non-negative values.
abbrev pub InRange : ℕ → ℤ → Type 0
InRange half (pos n) = n < half
InRange half (negsuc n) = n < half

-- A bit pattern below `2 * half` read as a signed integer, which is what `as i32` does to a u32.
abbrev pub to_signed : ℕ → ℕ → ℤ
to_signed half n = if ltb n half then pos n else negsuc (2 * half - 1 - n)

-- The bit pattern of a signed integer, as `as u32` gives it.
abbrev pub to_unsigned : ℕ → ℤ → ℕ
to_unsigned half (pos n) = n % (2 * half)
to_unsigned half (negsuc n) = 2 * half - 1 - n % (2 * half)

pub to_signed-to_unsigned :
    (half : ℕ) (z : ℤ) → InRange half z → to_signed half (to_unsigned half z) ≡ z
to_signed-to_unsigned half (pos n) h = grind (arith, mod-eq_of_lt)
to_signed-to_unsigned half (negsuc n) h = grind (arith, mod-eq_of_lt)

pub to_unsigned-lt : (half : ℕ) (z : ℤ) → 0 < half → to_unsigned half z < 2 * half
to_unsigned-lt half (pos n) h = grind arith
to_unsigned-lt half (negsuc n) h = grind arith
