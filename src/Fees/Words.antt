-- ===== src/Fees/Words.antt =====
-- The arithmetic of src/fees.rs on u32 and u64: saturating where the source says so, and wrapping
-- at u32 where it uses plain operators, as a release build does.
pub mod Bounds
use phantasma_sdk_rs.Prelude.{
  ℕ, zero, suc, ◌+◌, ◌-◌, ◌*◌, ◌/◌, ◌%◌, ◌^◌, min, Bool, true, false, ltb, leb, ◌==◌, if◌then◌else◌,
  ◌&&◌, not,
}
use phantasma_sdk_rs.Error.{Result, ok, err, builder}

abbrev pub max_u64 : ℕ
max_u64 = 2 ^ 64 - 1

abbrev pub max_u32 : ℕ
max_u32 = 2 ^ 32 - 1

-- saturating_add, saturating_mul and saturating_sub
unfoldable pub sat_add64 : ℕ → ℕ → ℕ
sat_add64 a b = min (a + b) max_u64

unfoldable pub sat_mul64 : ℕ → ℕ → ℕ
sat_mul64 a b = min (a * b) max_u64

unfoldable pub sat_add32 : ℕ → ℕ → ℕ
sat_add32 a b = min (a + b) max_u32

unfoldable pub sat_sub : ℕ → ℕ → ℕ
sat_sub a b = a - b

-- `+` and `*` on u32
unfoldable pub add32 : ℕ → ℕ → ℕ
add32 a b = (a + b) % 2 ^ 32

unfoldable pub mul32 : ℕ → ℕ → ℕ
mul32 a b = a * b % 2 ^ 32

-- `>>` on u64 by less than 64
abbrev pub shr : ℕ → ℕ → ℕ
shr a shift = a / 2 ^ shift

unfoldable pub div_ceil : ℕ → ℕ → ℕ
div_ceil a b = if a % b == 0 then a / b else a / b + 1

unfoldable pub quantum : Bool → ℕ
quantum true = 1
quantum false = 0

unfoldable pub storage_quanta_for : ℕ → ℕ
unfolding div_ceil
storage_quanta_for row_bytes = div_ceil row_bytes 1024

unfoldable pub phantasma_canonical_rom_bytes : ℕ → ℕ
unfolding add32 mul32
phantasma_canonical_rom_bytes public_rom_bytes = add32 (mul32 public_rom_bytes 2) (32 + 4)

-- The product has 128 bits, and what does not fit u64 saturates.
unfoldable pub mul_shift : ℕ → ℕ → ℕ → ℕ
mul_shift value multiplier shift =
    if leb 64 shift then 0 else min (value * multiplier / 2 ^ shift) max_u64

abbrev pub max_priceable_length : ℕ
max_priceable_length = 64

unfoldable pub symbol_shift : ℕ → ℕ → Result ℕ
symbol_shift zero max_length = ok 0
symbol_shift (suc shift) max_length =
    if not (max_length == 0) && leb max_length shift
    then err (builder "exceeds the chain maximum")
    else if ltb max_priceable_length (suc shift)
    then err (builder "cannot be priced offline")
    else ok shift
