-- ===== src/Binary/Tests.antt =====
-- The theorems on the VM format at concrete values.
use phantasma_sdk_rs.Prelude.{negsuc, ◌≡◌, refl, arith, true, [], ◌∷◌}
use phantasma_sdk_rs.Binary.{write_var_uint, read_var_uint, write_string, read_string}
use phantasma_sdk_rs.Text.{is_utf8}
use phantasma_sdk_rs.Error.{ok}
use phantasma_sdk_rs.Stream.{le_bytes}
use phantasma_sdk_rs.BigInt.Model.{model, digits}
use phantasma_sdk_rs.Binary.BigInteger.{
  ends_in, sign_padding, big_int_to_csharp_bytes, big_int_to_vm_bytes, write_big_integer,
  read_big_integer,
}
use phantasma_sdk_rs.Binary.BigInteger.Laws.{read_big_integer-write_big_integer}
use phantasma_sdk_rs.Binary.Laws.{
  PassesOver, read_var_uint-write_var_uint, read_string-write_string,
}

read_var_uint-write_var_uint_example : PassesOver (write_var_uint 70000) read_var_uint 70000
read_var_uint-write_var_uint_example = read_var_uint-write_var_uint 70000 (omega arith)

hi_valid : is_utf8 (0x68 ∷ 0x69 ∷ []) ≡ true
unfolding is_utf8
hi_valid = refl

read_string-write_string_example :
    PassesOver (write_string (0x68 ∷ 0x69 ∷ [])) read_string (0x68 ∷ 0x69 ∷ [])
read_string-write_string_example =
    read_string-write_string (0x68 ∷ 0x69 ∷ []) (omega arith) hi_valid

-- -256 is `00 FF` in two's complement, and has a byte more in the VM format.
minus_256 : big_int_to_vm_bytes (negsuc 255) ≡ ok (0x00 ∷ 0xFF ∷ 0xFF ∷ [])
unfolding big_int_to_vm_bytes big_int_to_csharp_bytes sign_padding ends_in digits le_bytes
minus_256 = refl

read_big_integer-write_big_integer_example :
    PassesOver (write_big_integer (negsuc 255)) read_big_integer (negsuc 255)
read_big_integer-write_big_integer_example =
    read_big_integer-write_big_integer (negsuc 255) (0x00 ∷ 0xFF ∷ 0xFF ∷ []) minus_256
      (omega arith)
