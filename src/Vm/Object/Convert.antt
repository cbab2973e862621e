-- ===== src/Vm/Object/Convert.antt =====
-- The conversions of the objects of src/vm.rs. The decimal digits of a number, UTF-16 and Base64 are a
-- parameter: they are methods of the standard library, of num-bigint and of the crate base64.
pub mod Laws
mod Tests
use phantasma_sdk_rs.Prelude.{
  ℕ, zero, suc, ◌+◌, ◌^◌, ◌<◌, ◌≡◌, pos, negsuc, List, [], ◌∷◌, Bool, true, false, not, ◌&&◌, ltb,
  ◌==◌, if◌then◌else◌, Option, none, some, length, get_or, list_eq, All,
}
use phantasma_sdk_rs.Error.{Result, ok, err, serialization, ◌>>=◌}
use phantasma_sdk_rs.Stream.{Bytes, le_bytes, from_le}
use phantasma_sdk_rs.Text.{is_utf8}
use phantasma_sdk_rs.Text.Ascii.{ascii}
use phantasma_sdk_rs.BigInt.{BigInt, BigIntBytes}
use phantasma_sdk_rs.Binary.BigInteger.{big_int_to_vm_bytes, vm_bytes_to_big_int}
use phantasma_sdk_rs.Vm.Code.{VmType, vm_type_byte}
use phantasma_sdk_rs.Vm.Object.{
  VmObject, VmItems, nothing, struct, bytes, number, text, timestamp, bool, enum, object, no_items,
  item, vm_type, item_count, to_bytes,
}

pub record TextLibrary : Type 0 where
  -- `to_string` and `parse` of a number.
  pub number_text : BigInt → Bytes
  pub parse_number : Bytes → Result BigInt
  -- `str::encode_utf16` and `String::from_utf16`.
  pub encode_utf16 : Bytes → List ℕ
  pub from_utf16 : List ℕ → Result Bytes
  -- `BASE64_STANDARD.encode`.
  pub base64_encode : Bytes → Bytes
  pub encode_utf16-small : (value : Bytes) → All (λ unit. unit < 2 ^ 16) (encode_utf16 value)
  pub from_utf16-encode_utf16 :
      (value : Bytes) → is_utf8 value ≡ true → from_utf16 (encode_utf16 value) ≡ ok value

-- `==` on numbers and on truth values.
unfoldable pub big_int_eq : BigInt → BigInt → Bool
big_int_eq (pos n) (pos k) = n == k
big_int_eq (negsuc n) (negsuc k) = n == k
big_int_eq _ _ = false

unfoldable pub bool_eq : Bool → Bool → Bool
bool_eq true other = other
bool_eq false other = not other

-- The derived `PartialEq`.
unfoldable mutual
  unfolding big_int_eq bool_eq

  pub object_eq : VmObject → VmObject → Bool
  object_eq nothing nothing = true
  object_eq (struct items) (struct others) = items_eq items others
  object_eq (bytes value) (bytes other) = list_eq value other
  object_eq (number value) (number other) = big_int_eq value other
  object_eq (text value) (text other) = list_eq value other
  object_eq (timestamp value) (timestamp other) = value == other
  object_eq (bool value) (bool other) = bool_eq value other
  object_eq (enum value) (enum other) = value == other
  object_eq (object value) (object other) = list_eq value other
  object_eq _ _ = false

  pub items_eq : VmItems → VmItems → Bool
  items_eq no_items no_items = true
  items_eq (item key value items) (item other_key other_value others) =
      object_eq key other_key && (object_eq value other_value && items_eq items others)
  items_eq _ _ = false

unfoldable pub struct_get : VmItems → VmObject → Option VmObject
unfolding object_eq
struct_get no_items key = none
struct_get (item item_key value items) key =
    let rest = struct_get items key in if object_eq item_key key then some value else rest

-- `==` on the types.
unfoldable pub type_eq : VmType → VmType → Bool
type_eq type other = vm_type_byte type == vm_type_byte other

unfoldable pub is_another : Option VmType → VmType → Bool
unfolding type_eq
is_another none type = false
is_another (some previous) type = not (type_eq previous type)

unfoldable pub type_or_none : Option VmType → VmType
type_or_none none = VmType.none_type
type_or_none (some type) = type

-- The loop over the indices from `index` on.
unfoldable pub scan_types : VmItems → ℕ → ℕ → Option VmType → VmType
unfolding struct_get is_another type_or_none vm_type
scan_types items index zero detected = type_or_none detected
scan_types items index (suc count) detected = elim (struct_get items (number (pos index))) [
  | none ↦ VmType.none_type
  | some value ↦
      let rest = scan_types items (index + 1) count (some (vm_type value)) in
      if is_another detected (vm_type value) then VmType.none_type else rest
]

unfoldable pub array_type : VmObject → VmType
unfolding scan_types item_count
array_type (struct items) = scan_types items 0 (item_count items) none
array_type _ = VmType.none_type

unfoldable pub as_bool : VmObject → Result Bool
as_bool (bool value) = ok value
as_bool (bytes value) =
    if length value == 1
    then ok (not (get_or value 0 0 == 0))
    else err (serialization "cannot convert to bool")
as_bool (number value) = elim value [ pos n ↦ ok (not (n == 0)) | negsuc n ↦ ok true ]
as_bool _ = err (serialization "cannot convert to bool")

unfoldable pub to_u16 : BigInt → Result ℕ
to_u16 (pos n) =
    if ltb n (2 ^ 16) then ok n else err (serialization "UTF-16 code unit out of range")
to_u16 (negsuc n) = err (serialization "UTF-16 code unit out of range")

-- `encode_utf16().enumerate()` as the pairs of a struct.
unfoldable pub numbered : ℕ → List ℕ → VmItems
numbered index [] = no_items
numbered index (unit ∷ units) =
    item (number (pos index)) (number (pos unit)) (numbered (index + 1) units)

module _ ⦃big : BigIntBytes⦄ where
  unfoldable pub as_bytes : VmObject → Result Bytes
  unfolding to_bytes
  as_bytes nothing = err (serialization "cannot convert None to bytes")
  as_bytes (text value) = ok value
  as_bytes (bytes value) = ok value
  as_bytes (object value) = ok value
  as_bytes (bool value) = ok ((if value then 1 else 0) ∷ [])
  as_bytes (enum value) = ok (le_bytes 4 value)
  as_bytes (timestamp value) = ok (le_bytes 4 value)
  as_bytes (number value) = big_int_to_vm_bytes value
  as_bytes (struct items) = to_bytes (struct items)

  module _ ⦃library : TextLibrary⦄ where
    unfoldable pub as_number : VmObject → Result BigInt
    as_number (number value) = ok value
    as_number (bytes value) = ok (vm_bytes_to_big_int value)
    as_number (object value) =
        if length value == 32
        then ok (pos (from_le value))
        else err (serialization "cannot convert to number")
    as_number (bool value) = ok (pos (if value then 1 else 0))
    as_number (text value) = library.parse_number value
    as_number (enum value) = ok (pos value)
    as_number (timestamp value) = ok (pos value)
    as_number nothing = ok (pos 0)
    as_number (struct items) = err (serialization "cannot convert to number")

    -- The loop over the code units.
    unfoldable pub code_units : VmItems → ℕ → ℕ → Result (List ℕ)
    unfolding struct_get as_number to_u16
    code_units items index zero = ok []
    code_units items index (suc count) = elim (struct_get items (number (pos index))) [
      | none ↦ err (serialization "invalid number array struct")
      | some value ↦ as_number value >>= to_u16 >>= λ unit.
          code_units items (index + 1) count >>= λ units. ok (unit ∷ units)
    ]

    unfoldable pub as_string : VmObject → Result Bytes
    unfolding array_type code_units as_bytes type_eq
    as_string (text value) = ok value
    as_string (bytes value) =
        if is_utf8 value then ok value else err (serialization "invalid utf-8 sequence")
    as_string (bool value) = ok (if value then ascii "true" else ascii "false")
    as_string (number value) = ok (library.number_text value)
    as_string (enum value) = ok (library.number_text (pos value))
    as_string (timestamp value) = ok (library.number_text (pos value))
    as_string nothing = ok (ascii "Null")
    as_string (object value) = err (serialization "cannot convert Object to string")
    as_string (struct items) =
        if type_eq (array_type (struct items)) VmType.number
        then code_units items 0 (item_count items) >>= library.from_utf16
        else as_bytes (struct items) >>= λ raw. ok (library.base64_encode raw)

    unfoldable pub cast_to_struct : VmObject → Result VmObject
    unfolding numbered
    cast_to_struct (text value) = ok (struct (numbered 0 (library.encode_utf16 value)))
    cast_to_struct (object value) = ok (object value)
    cast_to_struct _ = err (serialization "invalid cast to Struct")

    -- The match on the target.
    unfoldable pub cast_other : VmObject → VmType → Result VmObject
    unfolding as_string as_bytes as_number as_bool cast_to_struct
    cast_other o VmType.none_type = ok nothing
    cast_other o VmType.text = as_string o >>= λ value. ok (text value)
    cast_other o VmType.bytes = as_bytes o >>= λ value. ok (bytes value)
    cast_other o VmType.number = as_number o >>= λ value. ok (number value)
    cast_other o VmType.bool = as_bool o >>= λ value. ok (bool value)
    cast_other o VmType.struct = cast_to_struct o
    cast_other o _ = err (serialization "invalid cast")

    unfoldable pub cast_to : VmObject → VmType → Result VmObject
    unfolding type_eq vm_type cast_other
    cast_to o target = if type_eq (vm_type o) target then ok o else cast_other o target
