-- ===== src/Fees/Words/Bounds.antt =====
-- Bounds of the arithmetic of the fee calculator.
use phantasma_sdk_rs.Prelude.{ℕ, zero, suc, ◌+◌, ◌*◌, ◌/◌, ◌^◌, ◌≤◌, ◌<◌, ◌≡◌, arith}
use phantasma_sdk_rs.Error.{ok}
use phantasma_sdk_rs.Fees.Words.{
  max_u64, storage_quanta_for, phantasma_canonical_rom_bytes, mul_shift, symbol_shift,
}

div-le-div : (a b k : ℕ) → a ≤ b → a / k ≤ b / k
div-le-div a b k h = grind arith

mul-le-mul : (a b k : ℕ) → a ≤ b → a * k ≤ b * k
mul-le-mul a b k h = grind arith

-- The scaled fee grows with the value, also where it saturates or is shifted out.
pub mul_shift-le :
    (a b multiplier shift : ℕ) → a ≤ b → mul_shift a multiplier shift ≤ mul_shift b multiplier shift
unfolding mul_shift
mul_shift-le a b multiplier shift h =
    ground
      (arith, div-le-div (a * multiplier) (b * multiplier) (2 ^ shift), mul-le-mul a b multiplier h)

pub mul_shift-le-max : (value multiplier shift : ℕ) → mul_shift value multiplier shift ≤ max_u64
unfolding mul_shift
mul_shift-le-max value multiplier shift = ground arith

-- The quanta of a row are the least number of 1024-byte units that hold it.
pub storage_quanta_bounds :
    (row : ℕ) → (row ≤ 1024 * storage_quanta_for row) × (1024 * storage_quanta_for row < row + 1024)
unfolding storage_quanta_for
storage_quanta_bounds row = ground arith

-- The canonical ROM has twice the submitted bytes and 36 more, as long as that fits u32.
pub canonical_rom_exact :
    (n : ℕ) → 2 * n + 36 < 2 ^ 32 → phantasma_canonical_rom_bytes n ≡ 2 * n + 36
unfolding phantasma_canonical_rom_bytes
canonical_rom_exact n h = omega arith

-- A submitted ROM of more than 2147483629 bytes wraps: the result is too small by 2 ^ 32 or more.
pub canonical_rom_wraps :
    (n : ℕ) → 2147483629 < n → n < 2 ^ 32 → phantasma_canonical_rom_bytes n + 2 ^ 32 ≤ 2 * n + 36
unfolding phantasma_canonical_rom_bytes
canonical_rom_wraps n h k = omega arith

-- A shift that is answered is one that a u64 takes: below 64.
symbol_shift-lt :
    (length max_length : ℕ) {shift : ℕ} → symbol_shift length max_length ≡ ok shift → shift < 64
unfolding symbol_shift
symbol_shift-lt zero max_length e = ground arith
symbol_shift-lt (suc n) max_length e = ground arith
