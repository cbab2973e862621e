-- ===== src/Vm/Object/Tests.antt =====
-- The theorems on the objects of src/vm.rs at a struct within a struct, and at bytes that are cut off.
use phantasma_sdk_rs.Prelude.{◌≡◌, ◌≢◌, refl, arith, negsuc, [], ◌∷◌, replicate}
use phantasma_sdk_rs.Error.{ok, err, panicked}
use phantasma_sdk_rs.Stream.{Bytes, le_bytes}
use phantasma_sdk_rs.BigInt.Model.{model, digits}
use phantasma_sdk_rs.Binary.BigInteger.{ends_in, sign_padding, big_int_to_csharp_bytes}
use phantasma_sdk_rs.Vm.Object.{
  enum, timestamp, read_object, read_body, read_items, lift_type, VmObject, struct, number, object,
  nothing, item, no_items, item_count, to_bytes, from_bytes,
}
use phantasma_sdk_rs.Vm.Object.RoundTrip.{Fits, read_object-write_object}
use phantasma_sdk_rs.Stream.{read, remaining, assert_eof, from_le, ◌>>=◌, pure, new_reader}
use phantasma_sdk_rs.Binary.{
  read_whole, whole_value, read_u8, read_u32_le, read_var_uint, var_uint_after,
}
use phantasma_sdk_rs.Vm.Code.{vm_type_try_from}
use phantasma_sdk_rs.Vm.Object.Typed.{IsTyped, from_bytes-IsTyped}
use phantasma_sdk_rs.Vm.Object.Depth.{from_bytes_enough_fuel}

abbrev pair : VmObject
pair =
    struct (
      item (number (negsuc 255)) (struct (item nothing (object (replicate 34 7)) no_items))
        no_items)

pair-Fits : Fits pair
unfolding item_count big_int_to_csharp_bytes sign_padding ends_in digits le_bytes
pair-Fits = (omega arith, (omega arith, (omega arith, (tt, refl, tt)), tt))

read_object-write_object_example :
    (raw : Bytes) × (to_bytes pair ≡ ok raw) × (from_bytes raw ≡ ok pair)
read_object-write_object_example = read_object-write_object pair pair-Fits

from_bytes_enough_fuel_example :
    (from_bytes (1 ∷ 255 ∷ 255 ∷ 1 ∷ []) ≢ err (panicked "the depth is above the fuel"))
    × (read_whole (read_object 100) (1 ∷ 255 ∷ 255 ∷ 1 ∷ []) ≡ from_bytes (1 ∷ 255 ∷ 255 ∷ 1 ∷ []))
from_bytes_enough_fuel_example = from_bytes_enough_fuel (1 ∷ 255 ∷ 255 ∷ 1 ∷ []) 100 (omega arith)

abbrev short_struct : VmObject
short_struct = struct (item (enum 5) (timestamp 258) no_items)

abbrev short_bytes : Bytes
short_bytes = 1 ∷ 1 ∷ 7 ∷ 5 ∷ 5 ∷ 2 ∷ 1 ∷ 0 ∷ 0 ∷ []

short_read : from_bytes short_bytes ≡ ok short_struct
unfolding from_bytes read_whole whole_value new_reader read_object read_body read_items lift_type
    vm_type_try_from read_u8 read_u32_le read_var_uint var_uint_after read remaining assert_eof
    from_le ◌>>=◌ pure
short_read = refl

from_bytes-IsTyped_example : IsTyped short_struct
from_bytes-IsTyped_example =
    from_bytes-IsTyped short_bytes short_struct
      (
        omega arith,
        (
          omega arith,
          (
            omega arith,
            (
              omega arith,
              (omega arith, (omega arith, (omega arith, (omega arith, (omega arith, tt))))),
            ),
          ),
        ),
      )
      short_read
