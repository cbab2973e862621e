-- ===== src/BigInt.antt =====
-- The crate num-bigint, which src/binary.rs and src/carbon.rs use: a `BigInt` is an integer, and its
-- conversions to and from bytes are a parameter with their documented behaviour.
pub mod Model
use phantasma_sdk_rs.Prelude.{
  ℕ, suc, ◌+◌, ◌-◌, ◌/◌, ◌^◌, ◌≤◌, ◌<◌, ◌≡◌, ℤ, pos, negsuc, to_signed, List, All, length, ltb,
  if◌then◌else◌, take, ◌++◌, replicate, zero,
}
use phantasma_sdk_rs.Error.{Result, ok, err, serialization}
use phantasma_sdk_rs.Stream.{Bytes, from_le}
pub use phantasma_sdk_rs.Stream.Bytes.{IsByte}

abbrev pub BigInt : Type 0
BigInt = ℤ

-- The absolute value.
abbrev pub magnitude : BigInt → ℕ
magnitude (pos n) = n
magnitude (negsuc n) = suc n

pub record BigIntBytes : Type 0 where
  -- The bytes of the absolute value, lowest first, which `to_bytes_le` returns beside the sign.
  pub to_bytes_le : BigInt → Bytes
  -- The bytes of two's complement, lowest first, at least one.
  pub to_signed_bytes_le : BigInt → Bytes
  -- Two's complement, lowest byte first.
  pub from_signed_bytes_le : Bytes → BigInt
  pub to_bytes_le-value : (z : BigInt) → from_le (to_bytes_le z) ≡ magnitude z
  pub to_bytes_le-IsByte : (z : BigInt) → All IsByte (to_bytes_le z)
  -- There are no more bytes than the number needs, and one for zero.
  pub to_bytes_le-short :
      (z : BigInt) (n : ℕ) → magnitude z < 256 ^ suc n → length (to_bytes_le z) ≤ suc n
  pub from_signed_bytes_le-value :
      (bytes : Bytes)
      → All IsByte bytes
      → 0 < length bytes
      → from_signed_bytes_le bytes ≡ to_signed (256 ^ length bytes / 2) (from_le bytes)
  pub to_signed_bytes_le-value :
      (z : BigInt)
      → to_signed (256 ^ length (to_signed_bytes_le z) / 2) (from_le (to_signed_bytes_le z)) ≡ z
  pub to_signed_bytes_le-IsByte : (z : BigInt) → All IsByte (to_signed_bytes_le z)
  pub to_signed_bytes_le_pos : (z : BigInt) → 0 < length (to_signed_bytes_le z)

-- `Vec::resize`: cut or filled up to a length.
abbrev pub resize : Bytes → ℕ → ℕ → Bytes
resize bytes size value = take size (bytes ++ replicate (size - length bytes) value)

module _ ⦃big : BigIntBytes⦄ where
  -- The comparisons with the bounds, -2 ^ 255 and 2 ^ 256 - 1, and the addition of 2 ^ 256.
  unfoldable pub signed_word_256 : BigInt → Result Bytes
  signed_word_256 (pos n) =
      if ltb (2 ^ 256 - 1) n
      then err (serialization "BigInt overflow")
      else ok (resize (big.to_bytes_le (pos n)) 32 0)
  signed_word_256 (negsuc n) =
      if ltb (2 ^ 255) (suc n)
      then err (serialization "BigInt overflow")
      else ok (resize (big.to_bytes_le (pos (2 ^ 256 - suc n))) 32 0)

  unfoldable pub signed_word_to_big_int : Bytes → BigInt
  signed_word_to_big_int word = big.from_signed_bytes_le word
