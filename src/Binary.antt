-- ===== src/Binary.antt =====
-- BinaryWriter and BinaryReader of src/binary.rs: the VM format, with lengths of one, three, five or
-- nine bytes. They have the buffer, the slice and the offset of Stream.
pub mod Laws
pub mod BigInteger
mod Tests
use phantasma_sdk_rs.Prelude.{
  ℕ, ◌^◌, ℤ, to_signed, to_unsigned, Bool, true, false, not, ltb, leb, ◌==◌, if◌then◌else◌, [], ◌∷◌,
  length, get_or,
}
use phantasma_sdk_rs.Error.{Result, ok, err, serialization}
use phantasma_sdk_rs.Stream.{
  Bytes, Put, Get, ◌▹◌, pure, fail, new_reader, new_writer, assert_eof, ◌>>=◌, write, read,
  le_bytes, from_le,
}
use phantasma_sdk_rs.Text.{from_utf8}

abbrev pub max_array_size : ℕ
max_array_size = 0x01000000

unfoldable pub write_u8 : ℕ → Put
write_u8 value = write (value ∷ [])

unfoldable pub write_u16_le : ℕ → Put
write_u16_le value = write (le_bytes 2 value)

unfoldable pub write_u32_le : ℕ → Put
write_u32_le value = write (le_bytes 4 value)

unfoldable pub write_u64_le : ℕ → Put
write_u64_le value = write (le_bytes 8 value)

unfoldable pub write_i64_le : ℤ → Put
write_i64_le value = write (le_bytes 8 (to_unsigned (2 ^ 63) value))

unfoldable pub write_bool : Bool → Put
unfolding write_u8
write_bool true = write_u8 1
write_bool false = write_u8 0

unfoldable pub write_var_uint : ℕ → Put
write_var_uint value =
    if ltb value 0xFD
    then write_u8 value
    else if leb value 0xFFFF
    then (write_u8 0xFD ▹ write_u16_le value)
    else if leb value 0xFFFFFFFF
    then (write_u8 0xFE ▹ write_u32_le value)
    else (write_u8 0xFF ▹ write_u64_le value)

unfoldable pub write_var_bytes : Bytes → Put
write_var_bytes raw = write_var_uint (length raw) ▹ write raw

unfoldable pub write_string : Bytes → Put
write_string value = write_var_bytes value

unfoldable pub read_u8 : Get ℕ
read_u8 = read 1 >>= λ raw. pure (get_or raw 0 0)

unfoldable pub read_u16_le : Get ℕ
read_u16_le = read 2 >>= λ raw. pure (from_le raw)

unfoldable pub read_u32_le : Get ℕ
read_u32_le = read 4 >>= λ raw. pure (from_le raw)

unfoldable pub read_u64_le : Get ℕ
read_u64_le = read 8 >>= λ raw. pure (from_le raw)

unfoldable pub read_i64_le : Get ℤ
read_i64_le = read 8 >>= λ raw. pure (to_signed (2 ^ 63) (from_le raw))

unfoldable pub read_bool : Get Bool
read_bool = read_u8 >>= λ value. pure (not (value == 0))

-- The match on the first byte.
unfoldable pub var_uint_after : ℕ → Get ℕ
var_uint_after value =
    if value == 0xFD
    then read_u16_le
    else if value == 0xFE
    then read_u32_le
    else if value == 0xFF
    then read_u64_le
    else pure value

unfoldable pub read_var_uint : Get ℕ
unfolding var_uint_after
read_var_uint = read_u8 >>= var_uint_after

-- A u64 always fits a usize of 64 bits.
unfoldable pub read_sized : ℕ → ℕ → Get Bytes
read_sized max_size size =
    if ltb max_size size then fail (serialization "byte array too large") else read size

unfoldable pub read_var_bytes : ℕ → Get Bytes
unfolding read_sized
read_var_bytes max_size = read_var_uint >>= read_sized max_size

unfoldable pub read_string : Get Bytes
read_string = read_var_bytes max_array_size >>= from_utf8

module _ {A : Type 0} where
  -- The value of a reader, and `reader.assert_eof()?` behind it.
  unfoldable pub whole_value : A → Result (Unit {0}) → Result A
  whole_value value (ok _) = ok value
  whole_value value (err e) = err e

  unfoldable pub read_whole : Get A → Bytes → Result A
  unfolding whole_value new_reader
  read_whole get data_bytes = elim (get (new_reader data_bytes)) [
    | ok (value, r) ↦ whole_value value (assert_eof r)
    | err e ↦ err e
  ]

-- `let mut writer = BinaryWriter::new(); ...; writer.into_bytes()`.
unfoldable pub written_whole : Put → Result Bytes
unfolding new_writer
written_whole put = elim (put new_writer) [ ok w ↦ ok w.buffer | err e ↦ err e ]
