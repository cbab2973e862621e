-- ===== src/Carbon/Wire.antt =====
-- CarbonWriter and CarbonReader of src/carbon.rs, and the trait CarbonSerializable. The writer and
-- the reader are those of `Stream`.
pub mod Laws
use phantasma_sdk_rs.Prelude.{
  ℕ, zero, suc, ◌+◌, ◌-◌, ◌*◌, ◌^◌, ℤ, pos, negsuc, to_signed, to_unsigned, List, [], ◌∷◌, ltb,
  ◌==◌, if◌then◌else◌, length, get_or,
}
use phantasma_sdk_rs.Error.{Result, ok, err, serialization}
use phantasma_sdk_rs.Stream.{
  Bytes, Writer, Reader, Put, Get, ◌▹◌, fail_put, pure, fail, ◌>>=◌, new_writer, new_reader, write,
  remaining, assert_eof, read, le_bytes, from_le, read_many, write_many,
}

pub record CarbonSerializable (A : Type 0) : Type 0 where
  pub write_carbon : A → Put
  pub read_carbon : Get A

module _ {A : Type 0} ⦃c : CarbonSerializable A⦄ where
  unfoldable pub serialize : A → Result Bytes
  unfolding new_writer
  serialize value = elim (c.write_carbon value new_writer) [ ok w ↦ ok w.buffer | err e ↦ err e ]

  unfoldable pub finish : A → Result (Unit {0}) → Result A
  finish value (ok _) = ok value
  finish value (err e) = err e

  unfoldable pub deserialize : Bytes → Result A
  unfolding new_reader finish
  deserialize bytes = elim (c.read_carbon (new_reader bytes)) [
    | ok (value, r) ↦ finish value (assert_eof r)
    | err e ↦ err e
  ]

-- Bit patterns of the signed types: `half` is 2 ^ 15, 2 ^ 31 and 2 ^ 63.
abbrev pub half16 : ℕ
half16 = 2 ^ 15

abbrev pub half32 : ℕ
half32 = 2 ^ 31

abbrev pub half64 : ℕ
half64 = 2 ^ 63

unfoldable pub write1 : ℕ → Put
write1 value = write (value ∷ [])

unfoldable pub write2 : ℤ → Put
write2 value = write (le_bytes 2 (to_unsigned half16 value))

unfoldable pub write4 : ℤ → Put
write4 value = write (le_bytes 4 (to_unsigned half32 value))

unfoldable pub write4u : ℕ → Put
write4u value = write (le_bytes 4 value)

unfoldable pub write8 : ℤ → Put
write8 value = write (le_bytes 8 (to_unsigned half64 value))

unfoldable pub write8u : ℕ → Put
write8u value = write (le_bytes 8 value)

-- `[u8; 16]`, `[u8; 32]` and `[u8; 64]` are byte lists of that length.
unfoldable pub write16 : Bytes → Put
write16 value = write value

unfoldable pub write32 : Bytes → Put
write32 value = write value

unfoldable pub write64 : Bytes → Put
write64 value = write value

-- The check is against u32, on a 64-bit usize.
unfoldable pub ensure_u32_len : ℕ → Result ℕ
ensure_u32_len len =
    if ltb len (2 ^ 32) then ok len else err (serialization "array length exceeds u32")

-- `self.write4(ensure_u32_len(len)? as i32)`
unfoldable pub write_length : ℕ → Put
write_length len = elim (ensure_u32_len len) [
  | ok n ↦ write4 (to_signed half32 n)
  | err e ↦ fail_put e
]

unfoldable pub write_byte_array : Bytes → Put
write_byte_array bytes = write_length (length bytes) ▹ write bytes

unfoldable pub write_byte_arrays : List Bytes → Put
write_byte_arrays values = write_length (length values) ▹ write_many write_byte_array values

unfoldable pub write_i16_array : List ℤ → Put
write_i16_array values = write_length (length values) ▹ write_many write2 values

unfoldable pub write_i32_array : List ℤ → Put
write_i32_array values = write_length (length values) ▹ write_many write4 values

unfoldable pub write_i64_array : List ℤ → Put
write_i64_array values = write_length (length values) ▹ write_many write8 values

unfoldable pub write_u64_array : List ℕ → Put
write_u64_array values = write_length (length values) ▹ write_many write8u values

unfoldable pub read1 : Get ℕ
read1 = read 1 >>= λ raw. pure (get_or raw 0 0)

unfoldable pub read2 : Get ℤ
read2 = read 2 >>= λ raw. pure (to_signed half16 (from_le raw))

unfoldable pub read4 : Get ℤ
read4 = read 4 >>= λ raw. pure (to_signed half32 (from_le raw))

unfoldable pub read4u : Get ℕ
read4u = read 4 >>= λ raw. pure (from_le raw)

unfoldable pub read8 : Get ℤ
read8 = read 8 >>= λ raw. pure (to_signed half64 (from_le raw))

unfoldable pub read8u : Get ℕ
read8u = read 8 >>= λ raw. pure (from_le raw)

unfoldable pub read16 : Get Bytes
read16 = read 16

unfoldable pub read32 : Get Bytes
read32 = read 32

unfoldable pub read64 : Get Bytes
read64 = read 64

-- The checks of a length that was read, against overflow of usize and against what is left.
unfoldable pub check_length : ℕ → ℤ → Get ℕ
check_length element_size (negsuc n) r = err (serialization "negative array length")
check_length element_size (pos length) r =
    if ltb (length * element_size) (2 ^ 64)
    then (if ltb (remaining r) (length * element_size)
        then err (serialization "array length exceeds remaining bytes")
        else ok (length, r))
    else err (serialization "array length overflows byte count")

unfoldable pub read_length_for : ℕ → Get ℕ
read_length_for element_size =
    if element_size == 0
    then fail (serialization "invalid array element size")
    else (read4 >>= check_length element_size)

unfoldable pub read_length : Get ℕ
read_length = read_length_for 1

unfoldable pub read_byte_array : Get Bytes
read_byte_array = read_length >>= read

unfoldable pub read_byte_arrays : Get (List Bytes)
read_byte_arrays = read_length_for 4 >>= λ count. read_many count read_byte_array

unfoldable pub read_i16_array : Get (List ℤ)
read_i16_array = read_length_for 2 >>= λ count. read_many count read2

unfoldable pub read_i32_array : Get (List ℤ)
read_i32_array = read_length_for 4 >>= λ count. read_many count read4

unfoldable pub read_i64_array : Get (List ℤ)
read_i64_array = read_length_for 8 >>= λ count. read_many count read8

unfoldable pub read_u64_array : Get (List ℕ)
read_u64_array = read_length_for 8 >>= λ count. read_many count read8u

module _ {A : Type 0} ⦃c : CarbonSerializable A⦄ where
  unfoldable pub write_carbon_array : List A → Put
  write_carbon_array values = write_length (length values) ▹ write_many c.write_carbon values

  unfoldable pub read_carbon_array : Get (List A)
  read_carbon_array = read_length >>= λ count. read_many count c.read_carbon
