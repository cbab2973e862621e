-- ===== src/Vm/Object/Convert/Laws.antt =====
-- The struct that src/vm.rs casts a text to, as an array of characters, and the text read from it.
use phantasma_sdk_rs.Prelude.{
  ℕ, zero, suc, ltb, get_or, ◌+◌, ◌^◌, ◌<◌, ◌≡◌, refl, ap, sym, ◌∙◌, arith, pos, List, [], ◌∷◌,
  ◌++◌, true, false, lt→ltb, le→ltb, ◌==◌, if◌then◌else◌, Option, none, some, length, length-append,
  append_assoc, All,
}
use phantasma_sdk_rs.Error.{ok, err, serialization, ◌>>=◌}
use phantasma_sdk_rs.Stream.{Bytes}
use phantasma_sdk_rs.Text.{is_utf8}
use phantasma_sdk_rs.BigInt.{BigIntBytes}
use phantasma_sdk_rs.Vm.Code.{VmType, vm_type_byte}
use phantasma_sdk_rs.Vm.Object.{VmItems, number, text, struct, vm_type, item_count}
use phantasma_sdk_rs.Vm.Object.Convert.{
  TextLibrary, object_eq, big_int_eq, struct_get, type_eq, is_another, scan_types, type_or_none,
  array_type, to_u16, numbered, as_number, as_bytes, code_units, as_string, cast_to_struct, cast_to,
}

item_count-numbered :
    (index : ℕ) (units : List ℕ) → item_count (numbered index units) ≡ length units
unfolding item_count numbered
item_count-numbered index [] = refl
item_count-numbered index (unit ∷ units) = ap suc (item_count-numbered (index + 1) units)

-- The pair of an index holds the unit at that place.
struct_get-numbered :
    (index unit : ℕ) (front units : List ℕ)
    → struct_get (numbered index (front ++ unit ∷ units)) (number (pos (index + length front)))
      ≡ some (number (pos unit))
unfolding struct_get numbered object_eq big_int_eq
struct_get-numbered index unit [] units =
    let here : (index == index + 0) ≡ true = ground arith in rw here
struct_get-numbered index unit (first ∷ front) units =
    let other : (index == index + suc (length front)) ≡ false = ground arith in
    let next : index + suc (length front) ≡ index + 1 + length front = omega arith in
    rw other (
      ap (λ n. struct_get (numbered (index + 1) (front ++ unit ∷ units)) (number (pos n))) next
      ∙ struct_get-numbered (index + 1) unit front units)

-- A pair for each unit, found under the index of the unit, and no pair under another index.
abbrev pub HasUnits : VmItems → List ℕ → Type 0
HasUnits items units =
    (item_count items ≡ length units)
    × ((i : ℕ)
        → struct_get items (number (pos i))
          ≡ (if ltb i (length units) then some (number (pos (get_or units i 0))) else none))

struct_get-index :
    (index i : ℕ) (units : List ℕ)
    → struct_get (numbered index units) (number (pos (index + i)))
      ≡ (if ltb i (length units) then some (number (pos (get_or units i 0))) else none)
unfolding struct_get numbered object_eq big_int_eq
struct_get-index index i [] =
    let none_left : ltb i 0 ≡ false = le→ltb i 0 (omega arith) in rw none_left
struct_get-index index zero (unit ∷ units) =
    let here : (index == index + 0) ≡ true = ground arith in
    let within : ltb 0 (suc (length units)) ≡ true = lt→ltb _ _ (omega arith) in rw (here, within)
struct_get-index index (suc i) (unit ∷ units) =
    let other : (index == index + suc i) ≡ false = ground arith in
    let next : index + suc i ≡ index + 1 + i = omega arith in
    rw other (
      ap (λ n. struct_get (numbered (index + 1) units) (number (pos n))) next
      ∙ struct_get-index (index + 1) i units
      ∙ rw (shift i (length units)))
  where
    shift : (i n : ℕ) → ltb (suc i) (suc n) ≡ ltb i n
    shift i n = ground arith

unit_at :
    (i : ℕ) (units : List ℕ)
    → struct_get (numbered 0 units) (number (pos i))
      ≡ (if ltb i (length units) then some (number (pos (get_or units i 0))) else none)
unit_at i units =
    let start : i ≡ 0 + i = omega arith in
    ap (λ n. struct_get (numbered 0 units) (number (pos n))) start ∙ struct_get-index 0 i units

from_start :
    (unit : ℕ) (front units : List ℕ)
    → struct_get (numbered 0 (front ++ unit ∷ units)) (number (pos (length front)))
      ≡ some (number (pos unit))
from_start unit front units =
    let start : length front ≡ 0 + length front = omega arith in
    ap (λ n. struct_get (numbered 0 (front ++ unit ∷ units)) (number (pos n))) start
    ∙ struct_get-numbered 0 unit front units

-- A unit goes over to the front.
unit_over :
    {X : Type 0} (f : List ℕ → ℕ → X) (unit : ℕ) (front units : List ℕ)
    → f (front ++ unit ∷ units) (length front + 1)
      ≡ f (front ++ unit ∷ [] ++ units) (length (front ++ unit ∷ []))
unit_over f unit front units =
    ap (λ us. f us (length front + 1)) (sym (append_assoc front (unit ∷ []) units))
    ∙ ap (f (front ++ unit ∷ [] ++ units)) (omega (arith, length-append front (unit ∷ [])))

-- One step of the loop over the types.
scan_step :
    (unit count : ℕ) (front units : List ℕ) (detected : Option VmType)
    → is_another detected VmType.number ≡ false
    → scan_types (numbered 0 (front ++ unit ∷ units)) (length front) (suc count) detected
      ≡ scan_types
          (numbered 0 (front ++ unit ∷ [] ++ units))
          (length (front ++ unit ∷ []))
          count
          (some VmType.number)
unfolding scan_types vm_type
scan_step unit count front units detected same =
    let whole = numbered 0 (front ++ unit ∷ units) in
    ap
      (λ found. elim found [
        | none ↦ VmType.none_type
        | some value ↦
            if is_another detected (vm_type value)
            then VmType.none_type
            else scan_types whole (length front + 1) count (some (vm_type value))
      ])
      (from_start unit front units)
    ∙ ap
        (λ b.
          if b
          then VmType.none_type
          else scan_types whole (length front + 1) count (some VmType.number))
        same
    ∙ unit_over (λ us n. scan_types (numbered 0 us) n count (some VmType.number)) unit front units

same_number : is_another (some VmType.number) VmType.number ≡ false
unfolding is_another type_eq vm_type_byte
same_number = refl

all_numbers :
    (units front : List ℕ)
    → scan_types (numbered 0 (front ++ units)) (length front) (length units) (some VmType.number)
      ≡ VmType.number
all_numbers [] front = unfold scan_types type_or_none in refl
all_numbers (unit ∷ units) front =
    scan_step unit (length units) front units (some VmType.number) same_number
    ∙ all_numbers units (front ++ unit ∷ [])

array_type-numbered :
    (units : List ℕ) → 0 < length units → array_type (struct (numbered 0 units)) ≡ VmType.number
unfolding array_type is_another
array_type-numbered [] h = absurd (omega arith)
array_type-numbered (unit ∷ units) h =
    ap (λ n. scan_types (numbered 0 (unit ∷ units)) 0 n none) (item_count-numbered 0 (unit ∷ units))
    ∙ scan_step unit (length units) [] units none refl
    ∙ all_numbers units (unit ∷ [])

module _ ⦃big : BigIntBytes⦄ ⦃library : TextLibrary⦄ where
  units_step :
      (unit count : ℕ) (front units : List ℕ)
      → unit < 2 ^ 16
      → code_units (numbered 0 (front ++ unit ∷ units)) (length front) (suc count) ≡ (
          code_units (numbered 0 (front ++ unit ∷ [] ++ units)) (length (front ++ unit ∷ [])) count
          >>= λ rest. ok (unit ∷ rest))
  unfolding code_units as_number to_u16
  units_step unit count front units small =
      let whole = numbered 0 (front ++ unit ∷ units) in
      ap
        (λ found. elim found [
          | none ↦ err (serialization "invalid number array struct")
          | some value ↦ as_number value >>= to_u16 >>= λ u.
              code_units whole (length front + 1) count >>= λ rest. ok (u ∷ rest)
        ])
        (from_start unit front units)
      ∙ ap
          (λ b.
            (if b then ok unit else err (serialization "UTF-16 code unit out of range")) >>= λ u.
            code_units whole (length front + 1) count >>= λ rest. ok (u ∷ rest))
          (lt→ltb unit (2 ^ 16) small)
      ∙ unit_over (λ us n. code_units (numbered 0 us) n count >>= λ rest. ok (unit ∷ rest)) unit
          front units

  code_units-numbered :
      (units front : List ℕ)
      → All (λ unit. unit < 2 ^ 16) units
      → code_units (numbered 0 (front ++ units)) (length front) (length units) ≡ ok units
  code_units-numbered [] front small = unfold code_units in refl
  code_units-numbered (unit ∷ units) front (small, smalls) =
      units_step unit (length units) front units small
      ∙ ap (λ answer. answer >>= λ rest. ok (unit ∷ rest))
          (code_units-numbered units (front ++ unit ∷ []) smalls)

  as_string_array :
      (items : VmItems)
      → array_type (struct items) ≡ VmType.number
      → as_string (struct items) ≡ (code_units items 0 (item_count items) >>= library.from_utf16)
  unfolding as_string type_eq vm_type_byte
  as_string_array items h =
      ap
        (λ type.
          if type_eq type VmType.number
          then code_units items 0 (item_count items) >>= library.from_utf16
          else (as_bytes (struct items) >>= λ raw. ok (library.base64_encode raw)))
        h

  -- A text of valid UTF-8 that is not empty is cast to a struct that has as many pairs as the text
  -- has UTF-16 code units, with each unit as the number at the key of its index and nothing at a
  -- greater index, and that struct is read as the same text.
  pub as_string-cast_to :
      (value : Bytes)
      → is_utf8 value ≡ true
      → 0 < length (library.encode_utf16 value)
      → (items : VmItems) × (cast_to (text value) VmType.struct ≡ ok (struct items))
        × HasUnits items (library.encode_utf16 value)
        × (as_string (struct items) ≡ ok value)
  unfolding cast_to type_eq vm_type vm_type_byte cast_to_struct
  as_string-cast_to value valid some_units =
      let units = library.encode_utf16 value in
      (
        numbered 0 units,
        refl,
        (item_count-numbered 0 units, λ i. unit_at i units),
        as_string_array (numbered 0 units) (array_type-numbered units some_units)
            ∙ ap (λ n. code_units (numbered 0 units) 0 n >>= library.from_utf16)
                (item_count-numbered 0 units)
            ∙ ap (λ answer. answer >>= library.from_utf16)
                (code_units-numbered units [] (library.encode_utf16-small value))
            ∙ library.from_utf16-encode_utf16 value valid,
      )
