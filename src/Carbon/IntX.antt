-- ===== src/Carbon/IntX.antt =====
-- The integers of the Carbon format in src/carbon.rs: the compact encoding of a 256-bit word, and
-- IntX, which keeps eight bytes for what an i64 holds.
mod Word
pub mod Laws
pub mod Short
use phantasma_sdk_rs.Prelude.{
  ℕ, zero, suc, ◌+◌, ◌-◌, ◌^◌, ℤ, pos, negsuc, to_signed, is_negative, List, [], ◌∷◌, ◌++◌, Bool,
  true, false, not, ◌&&◌, ◌||◌, ltb, ◌==◌, if◌then◌else◌, length, take, replicate, get_or, bit_and,
  bit_or, ◌<◌,
}
use phantasma_sdk_rs.Error.{Result, ok, err, serialization}
use phantasma_sdk_rs.Stream.{
  Bytes, Put, Get, ◌▹◌, fail_put, pure, fail, ◌>>=◌, write, read, from_le,
}
use phantasma_sdk_rs.BigInt.{BigInt, BigIntBytes, signed_word_256, signed_word_to_big_int}
use phantasma_sdk_rs.Carbon.Wire.{
  CarbonSerializable, half64, write1, write8, write_length, read1, read_length, write_carbon_array,
}
use phantasma_sdk_rs.Stream.{write_many, read_many}

-- `while len > 0 && word[len - 1] == fill { len -= 1; }`
unfoldable pub trim : Bytes → ℕ → ℕ → ℕ
trim word fill zero = zero
trim word fill (suc len) =
    let shorter = trim word fill len in if get_or word len 0 == fill then shorter else suc len

-- The fill byte that a sign bit stands for.
abbrev pub fill_of : Bool → ℕ
fill_of top = if top then 0xFF else 0x00

-- `value & mask != 0`
abbrev pub has_bits : ℕ → ℕ → Bool
has_bits value mask = not (bit_and value mask == 0)

unfoldable pub compact_header : ℕ → ℕ → ℕ
compact_header len fill = if fill == 0xFF then bit_or (bit_and len 0x3F) 0x80 else bit_and len 0x3F

unfoldable pub write_word : Bytes → Put
write_word word =
    let fill = fill_of (has_bits (get_or word 31 0) 0x80) in
    let len = trim word fill 32 in write1 (compact_header len fill) ▹ write (take len word)

abbrev pub is_zero : BigInt → Bool
is_zero (pos n) = n == 0
is_zero (negsuc n) = false

abbrev pub same : Bool → Bool → Bool
same true b = b
same false b = not b

module _ ⦃big : BigIntBytes⦄ where
  unfoldable pub write_big_int : BigInt → Put
  write_big_int value =
      if is_zero value
      then write1 0
      else elim (signed_word_256 value) [ ok word ↦ write_word word | err e ↦ fail_put e ]

  unfoldable pub check_word : ℕ → Bytes → Get BigInt
  check_word header word =
      if same (has_bits (get_or word 31 0) 0x80) (has_bits header 0x80)
      then pure (signed_word_to_big_int word)
      else fail (serialization "non-standard BigInt header")

  -- With a length of zero the source reads nothing, which is what `read 0` does.
  unfoldable pub read_big_int_with_header : ℕ → Get BigInt
  read_big_int_with_header header =
      let len = bit_and header 0x3F in
      let fill = fill_of (has_bits header 0x80) in
      if header == 0
      then pure (pos 0)
      else if has_bits header 0x40 || ltb 32 len
      then fail (serialization "BigInt too big")
      else (read len >>= λ raw. check_word header (raw ++ replicate (32 - len) fill))

  unfoldable pub read_big_int : Get BigInt
  read_big_int = read1 >>= read_big_int_with_header

  unfoldable pub write_big_int_array : List BigInt → Put
  write_big_int_array values = write_length (length values) ▹ write_many write_big_int values

  unfoldable pub read_big_int_array : Get (List BigInt)
  read_big_int_array = read_length >>= λ count. read_many count read_big_int

pub record IntX : Type 0 where
  pub value : BigInt

unfoldable pub is_8_byte_safe : BigInt → Bool
is_8_byte_safe (pos n) = ltb n half64
is_8_byte_safe (negsuc n) = ltb n half64

module _ ⦃big : BigIntBytes⦄ where
  unfoldable pub write_int_x : IntX → Put
  write_int_x x =
      if is_8_byte_safe x.value
      then (write1 (if is_negative x.value then 0x88 else 0x08) ▹ write8 x.value)
      else write_big_int x.value

  -- The eight bytes of the short form, whose sign bit may differ from the header's.
  unfoldable pub short_int_x : ℕ → Bytes → IntX
  short_int_x header raw =
      let value = to_signed half64 (from_le raw) in
      let negative = has_bits header 0x80 in
      if same negative (is_negative value)
      then record { value = value }
      else record { value = signed_word_to_big_int (raw ++ replicate 24 (fill_of negative)) }

  unfoldable pub read_int_x_with_header : ℕ → Get IntX
  read_int_x_with_header header =
      let len = bit_and header 0x3F in
      if ltb len 8
      then fail (serialization "invalid IntX packing")
      else if len == 8
      then (read 8 >>= λ raw. pure (short_int_x header raw))
      else (read_big_int_with_header header >>= λ value. pure (record { value = value }))

  unfoldable pub read_int_x : Get IntX
  read_int_x = read1 >>= read_int_x_with_header

  instance abbrev pub int_x_carbon : CarbonSerializable IntX
  int_x_carbon = record { write_carbon = write_int_x; read_carbon = read_int_x }
