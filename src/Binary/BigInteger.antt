-- ===== src/Binary/BigInteger.antt =====
-- The big integers of the VM format, src/binary.rs: the shape of C# and the padding with the sign.
pub mod Laws
use phantasma_sdk_rs.Prelude.{
  ℕ, pos, negsuc, Bool, true, false, if◌then◌else◌, ◌==◌, [], ◌∷◌, ◌++◌, length,
}
use phantasma_sdk_rs.Error.{Result, ok, err}
use phantasma_sdk_rs.Stream.{Bytes, Put, Get, pure, ◌>>=◌}
use phantasma_sdk_rs.BigInt.{BigInt, BigIntBytes}
use phantasma_sdk_rs.Binary.{max_array_size, write_var_bytes, read_var_bytes}

-- `raw.last() == Some(&value)`.
unfoldable pub ends_in : ℕ → Bytes → Bool
ends_in value [] = false
ends_in value (b ∷ []) = b == value
ends_in value (b ∷ c ∷ bytes) = ends_in value (c ∷ bytes)

-- What `big_int_to_vm_bytes` appends to the bytes of a number.
unfoldable pub sign_padding : BigInt → Bytes → Bytes
unfolding ends_in
sign_padding (pos n) raw = if ends_in 0x00 raw then [] else 0x00 ∷ []
sign_padding (negsuc n) raw =
    if length raw == 1 then 0xFF ∷ 0xFF ∷ [] else if ends_in 0xFF raw then 0xFF ∷ [] else []

module _ ⦃big : BigIntBytes⦄ where
  unfoldable pub big_int_to_csharp_bytes : BigInt → Bytes
  big_int_to_csharp_bytes (pos n) = if n == 0 then 0 ∷ [] else big.to_signed_bytes_le (pos n)
  big_int_to_csharp_bytes (negsuc n) = big.to_signed_bytes_le (negsuc n)

  unfoldable pub big_int_to_vm_bytes : BigInt → Result Bytes
  unfolding sign_padding big_int_to_csharp_bytes
  big_int_to_vm_bytes value =
      let raw = big_int_to_csharp_bytes value in ok (raw ++ sign_padding value raw)

  unfoldable pub vm_bytes_to_big_int : Bytes → BigInt
  vm_bytes_to_big_int [] = pos 0
  vm_bytes_to_big_int (b ∷ bytes) = big.from_signed_bytes_le (b ∷ bytes)

  unfoldable pub write_big_integer : BigInt → Put
  unfolding big_int_to_vm_bytes
  write_big_integer value w = elim (big_int_to_vm_bytes value) [
    | ok raw ↦ write_var_bytes raw w
    | err e ↦ err e
  ]

  unfoldable pub read_big_integer : Get BigInt
  unfolding vm_bytes_to_big_int
  read_big_integer = read_var_bytes max_array_size >>= λ raw. pure (vm_bytes_to_big_int raw)
