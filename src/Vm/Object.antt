-- ===== src/Vm/Object.antt =====
-- VMObject of src/vm.rs: its bytes and what reads them. A reader of objects calls itself for the
-- fields of a struct; the fuel bounds the depth, and `panicked` is a search without fuel.
pub mod RoundTrip
pub mod Bounded
pub mod Depth
pub mod Typed
pub mod Convert
mod Tests
use phantasma_sdk_rs.Prelude.{
  ℕ, zero, suc, ◌+◌, List, [], ◌∷◌, Bool, true, false, ◌&&◌, leb, ◌==◌, if◌then◌else◌, length, drop,
  get_or,
}
use phantasma_sdk_rs.Error.{Result, ok, err, serialization, panicked}
use phantasma_sdk_rs.Stream.{Bytes, Put, Get, ◌▹◌, skip, fail_put, pure, fail, ◌>>=◌}
use phantasma_sdk_rs.BigInt.{BigInt, BigIntBytes}
use phantasma_sdk_rs.Binary.{
  max_array_size, write_u8, write_u32_le, write_bool, write_var_uint, write_var_bytes, write_string,
  read_u8, read_u32_le, read_bool, read_var_uint, read_var_bytes, read_string, read_whole,
  written_whole,
}
use phantasma_sdk_rs.Binary.BigInteger.{write_big_integer, read_big_integer}
use phantasma_sdk_rs.Vm.Code.{VmType, vm_type_byte, vm_type_try_from}

-- The pairs of a struct are a type of their own.
mutual
  pub data VmObject : Type 0 where
    nothing : VmObject
    struct : VmItems → VmObject
    bytes : Bytes → VmObject
    number : BigInt → VmObject
    text : Bytes → VmObject
    timestamp : ℕ → VmObject
    bool : Bool → VmObject
    enum : ℕ → VmObject
    object : Bytes → VmObject

  pub data VmItems : Type 0 where
    no_items : VmItems
    item : VmObject → VmObject → VmItems → VmItems

unfoldable pub vm_type : VmObject → VmType
vm_type nothing = VmType.none_type
vm_type (struct items) = VmType.struct
vm_type (bytes value) = VmType.bytes
vm_type (number value) = VmType.number
vm_type (text value) = VmType.text
vm_type (timestamp value) = VmType.timestamp
vm_type (bool value) = VmType.bool
vm_type (enum value) = VmType.enum
vm_type (object value) = VmType.object

unfoldable pub item_count : VmItems → ℕ
item_count no_items = 0
item_count (item key value items) = suc (item_count items)

unfoldable pub write_type : VmObject → Put
unfolding vm_type
write_type o = write_u8 (vm_type_byte (vm_type o))

unfoldable pub write_enum : ℕ → Put
write_enum value =
    if leb 256 value then fail_put (serialization "enum value exceeds one byte") else write_u8 value

-- The writer of its own that wraps an object.
unfoldable pub write_wrapped : Bytes → Put
write_wrapped value w = elim (written_whole (write_var_bytes value)) [
  | ok inner ↦ write_var_bytes inner w
  | err e ↦ err e
]

unfoldable pub wrapped_or_bytes : Bytes → VmObject
wrapped_or_bytes raw =
    if (length raw == 35) && (get_or raw 0 0 == 34) then object (drop 1 raw) else bytes raw

unfoldable pub lift_type : Result VmType → Get VmType
lift_type (ok value) r = ok (value, r)
lift_type (err e) r = err e

-- The loop over the pairs of a struct.
unfoldable pub read_items : Get VmObject → ℕ → Get VmItems
read_items p zero = pure no_items
read_items p (suc count) =
    p >>= λ key. p >>= λ value. read_items p count >>= λ items. pure (item key value items)

module _ ⦃big : BigIntBytes⦄ where
  unfoldable mutual
    unfolding write_type write_enum write_wrapped item_count

    pub write_object : VmObject → Put
    write_object nothing = write_type nothing
    write_object (struct items) =
        write_type (struct items) ▹ write_var_uint (item_count items) ▹ write_items items
    write_object (bytes value) = write_type (bytes value) ▹ write_var_bytes value
    write_object (number value) = write_type (number value) ▹ write_big_integer value
    write_object (text value) = write_type (text value) ▹ write_string value
    write_object (timestamp value) = write_type (timestamp value) ▹ write_u32_le value
    write_object (bool value) = write_type (bool value) ▹ write_bool value
    write_object (enum value) = write_type (enum value) ▹ write_enum value
    write_object (object value) = write_type (object value) ▹ write_wrapped value

    pub write_items : VmItems → Put
    write_items no_items = skip
    write_items (item key value items) = write_object key ▹ write_object value ▹ write_items items

  unfoldable pub to_bytes : VmObject → Result Bytes
  unfolding write_object
  to_bytes o = written_whole (write_object o)

  -- What follows the byte of the type; `inner` reads the objects of a struct.
  unfoldable pub read_body : Get VmObject → VmType → Get VmObject
  unfolding wrapped_or_bytes read_items
  read_body inner VmType.none_type = pure nothing
  read_body inner VmType.bool = read_bool >>= λ value. pure (bool value)
  read_body inner VmType.bytes = read_var_bytes max_array_size >>= λ value. pure (bytes value)
  read_body inner VmType.enum = read_u8 >>= λ value. pure (enum value)
  read_body inner VmType.number = read_big_integer >>= λ value. pure (number value)
  read_body inner VmType.text = read_string >>= λ value. pure (text value)
  read_body inner VmType.timestamp = read_u32_le >>= λ value. pure (timestamp value)
  read_body inner VmType.object =
      read_var_bytes max_array_size >>= λ raw. pure (wrapped_or_bytes raw)
  read_body inner VmType.struct =
      read_var_uint >>= λ count. read_items inner count >>= λ items. pure (struct items)

  unfoldable pub read_object : ℕ → Get VmObject
  unfolding read_body lift_type
  read_object zero = fail (panicked "the depth is above the fuel")
  read_object (suc fuel) =
      read_u8 >>= λ tag. lift_type (vm_type_try_from tag) >>= read_body (read_object fuel)

  -- An object is no deeper than its bytes are many.
  unfoldable pub from_bytes : Bytes → Result VmObject
  unfolding read_object
  from_bytes data_bytes = read_whole (read_object (suc (length data_bytes))) data_bytes
