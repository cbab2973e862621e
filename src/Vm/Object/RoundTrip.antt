-- ===== src/Vm/Object/RoundTrip.antt =====
-- The objects of src/vm.rs are read from the bytes that they are written as.
use phantasma_sdk_rs.Prelude.{
  ℕ, zero, suc, max, ◌+◌, ◌^◌, ◌≤◌, ◌<◌, ◌≡◌, refl, ap, sym, ◌∙◌, arith, subst, ◌∷◌, true, false,
  length, leb, Bool,
}
use phantasma_sdk_rs.Error.{ok, err, ok-injective}
use phantasma_sdk_rs.Stream.{Bytes, Put, ◌▹◌, pure, ◌>>=◌, write, new_writer}
use phantasma_sdk_rs.Stream.Codes.{
  Codes, Codes-bind, Codes-end, Codes-weaken, Codes-le, Codes-skip, Codes-pure,
}
use phantasma_sdk_rs.Text.{is_utf8}
use phantasma_sdk_rs.BigInt.{BigInt, BigIntBytes}
use phantasma_sdk_rs.Binary.{
  max_array_size, write_u8, write_u32_le, write_bool, write_var_uint, write_var_bytes, read_u8,
  read_u32_le, read_bool, read_var_bytes, read_whole, written_whole,
}
use phantasma_sdk_rs.Binary.Laws.{
  Codes-u8, Codes-var_uint, Codes-var_bytes, Codes-string, written_whole-bytes, read_whole-bytes,
}
use phantasma_sdk_rs.Binary.BigInteger.Laws.{padded, Codes-big_integer}
use phantasma_sdk_rs.Vm.Code.{VmType, vm_type_byte, vm_type_try_from}
use phantasma_sdk_rs.Vm.Object.{
  VmObject, VmItems, nothing, struct, bytes, number, text, timestamp, bool, enum, object, no_items,
  item, item_count, write_enum, write_wrapped, wrapped_or_bytes, lift_type, read_items,
  write_object, write_items, to_bytes, read_body, read_object, from_bytes,
}

abbrev mutual
  pub depth : VmObject → ℕ
  depth (struct items) = suc (depth_items items)
  depth _ = 1

  pub depth_items : VmItems → ℕ
  depth_items no_items = 0
  depth_items (item key value items) = max (depth key) (max (depth value) (depth_items items))

depth_pos : (o : VmObject) → 0 < depth o
depth_pos nothing = omega arith
depth_pos (struct items) = omega arith
depth_pos (bytes value) = omega arith
depth_pos (number value) = omega arith
depth_pos (text value) = omega arith
depth_pos (timestamp value) = omega arith
depth_pos (bool value) = omega arith
depth_pos (enum value) = omega arith
depth_pos (object value) = omega arith

module _ ⦃big : BigIntBytes⦄ where
  -- What an object has to be for its readers: lengths within the reader's limit, texts of UTF-8, an
  -- enum of one byte, a timestamp of 32 bits, an address of 34 bytes for an object.
  abbrev mutual
    pub Fits : VmObject → Type 0
    Fits nothing = Unit
    Fits (struct items) = (item_count items < 2 ^ 64) × FitItems items
    Fits (bytes value) = length value ≤ max_array_size
    Fits (number value) = length (padded value) ≤ max_array_size
    Fits (text value) = (length value ≤ max_array_size) × (is_utf8 value ≡ true)
    Fits (timestamp value) = value < 2 ^ 32
    Fits (bool value) = Unit
    Fits (enum value) = value < 256
    Fits (object value) = length value ≡ 34

    pub FitItems : VmItems → Type 0
    FitItems no_items = Unit
    FitItems (item key value items) = Fits key × Fits value × FitItems items

  lift_type_ok : (type : VmType) → lift_type (ok type) ≡ pure type
  unfolding lift_type pure
  lift_type_ok type = refl

  -- An object whose type and body are written one after the other.
  Codes-typed :
      (fuel n : ℕ) (o : VmObject) (type : VmType) (body : Put)
      → vm_type_try_from (vm_type_byte type) ≡ ok type
      → Codes n body (read_body (read_object fuel) type) o
      → Codes (1 + n) (write_u8 (vm_type_byte type) ▹ body) (read_object (suc fuel)) o
  unfolding read_object
  Codes-typed fuel n o type body known c = Codes-bind _ (Codes-u8 (vm_type_byte type)) (
      Codes-pure (lift_type (vm_type_try_from (vm_type_byte type))) (read_body (read_object fuel))
        (ap lift_type known ∙ lift_type_ok type) c)

  Codes-nothing : (fuel : ℕ) → Codes 1 (write_object nothing) (read_object (suc fuel)) nothing
  unfolding write_object vm_type_byte read_object read_body vm_type_try_from lift_type ◌>>=◌ pure
  Codes-nothing fuel = Codes-end _ (Codes-u8 0) refl

  Codes-bool : (value : Bool) → Codes 1 (write_bool value) read_bool value
  unfolding write_bool read_bool
  Codes-bool true = Codes-end _ (Codes-u8 1) refl
  Codes-bool false = Codes-end _ (Codes-u8 0) refl

  Codes-enum : (value : ℕ) → value < 256 → Codes 1 (write_enum value) read_u8 value
  unfolding write_enum
  Codes-enum value small =
      let fits : leb 256 value ≡ false = ground arith in rw fits (Codes-u8 value)

  -- The bytes of an address, behind their length.
  wrapped_bytes :
      (value : Bytes) → length value ≡ 34 → written_whole (write_var_bytes value) ≡ ok (34 ∷ value)
  unfolding written_whole write_var_bytes write_var_uint write_u8 write ◌▹◌ new_writer
  wrapped_bytes value size = rw size

  Codes-wrapped :
      (value : Bytes)
      → length value ≡ 34
      → Codes 1
          (write_wrapped value)
          (read_var_bytes max_array_size >>= λ raw. pure (wrapped_or_bytes raw))
          (object value)
  unfolding write_wrapped wrapped_or_bytes
  Codes-wrapped value size =
      let same : write_wrapped value ≡ write_var_bytes (34 ∷ value) =
        ap (λ answer w. elim answer [ ok inner ↦ write_var_bytes inner w | err e ↦ err e ])
          (wrapped_bytes value size) in
      let short : length (34 ∷ value) ≤ max_array_size = omega (arith, size) in
      rw same
        (Codes-end _ (Codes-var_bytes max_array_size (34 ∷ value) short (omega arith)) (rw size))

  module _ (fuel : ℕ) where
    Codes-body :
        (n : ℕ) (o : VmObject) (type : VmType) (body : Put)
        → vm_type_try_from (vm_type_byte type) ≡ ok type
        → Codes n body (read_body (read_object fuel) type) o
        → Codes 1 (write_u8 (vm_type_byte type) ▹ body) (read_object (suc fuel)) o
    Codes-body n o type body known c =
        Codes-weaken 1 (omega arith) (Codes-typed fuel n o type body known c)

    Codes-bytes :
        (value : Bytes)
        → Fits (bytes value)
        → Codes 1 (write_object (bytes value)) (read_object (suc fuel)) (bytes value)
    unfolding write_object vm_type_byte vm_type_try_from read_body
    Codes-bytes value f =
        Codes-body 1 (bytes value) VmType.bytes _ refl
          (Codes-end _ (Codes-var_bytes max_array_size value f (omega arith)) refl)

    Codes-number :
        (value : BigInt)
        → Fits (number value)
        → Codes 1 (write_object (number value)) (read_object (suc fuel)) (number value)
    unfolding write_object vm_type_byte vm_type_try_from read_body
    Codes-number value f =
        Codes-body 1 (number value) VmType.number _ refl
          (Codes-end _ (Codes-big_integer value f) refl)

    Codes-text :
        (value : Bytes)
        → Fits (text value)
        → Codes 1 (write_object (text value)) (read_object (suc fuel)) (text value)
    unfolding write_object vm_type_byte vm_type_try_from read_body
    Codes-text value (short, valid) =
        Codes-body 1 (text value) VmType.text _ refl
          (Codes-end _ (Codes-string value short valid) refl)

    Codes-timestamp :
        (value : ℕ)
        → Fits (timestamp value)
        → Codes 1 (write_object (timestamp value)) (read_object (suc fuel)) (timestamp value)
    unfolding write_object vm_type_byte vm_type_try_from read_body write_u32_le read_u32_le
    Codes-timestamp value f =
        Codes-body 4 (timestamp value) VmType.timestamp _ refl
          (Codes-end _ (Codes-le (λ k. k) 4 value (omega (arith, f))) refl)

    Codes-flag :
        (value : Bool) → Codes 1 (write_object (bool value)) (read_object (suc fuel)) (bool value)
    unfolding write_object vm_type_byte vm_type_try_from read_body
    Codes-flag value =
        Codes-body 1 (bool value) VmType.bool _ refl (Codes-end _ (Codes-bool value) refl)

    Codes-choice :
        (value : ℕ)
        → Fits (enum value)
        → Codes 1 (write_object (enum value)) (read_object (suc fuel)) (enum value)
    unfolding write_object vm_type_byte vm_type_try_from read_body
    Codes-choice value f =
        Codes-body 1 (enum value) VmType.enum _ refl (Codes-end _ (Codes-enum value f) refl)

    Codes-object :
        (value : Bytes)
        → Fits (object value)
        → Codes 1 (write_object (object value)) (read_object (suc fuel)) (object value)
    unfolding write_object vm_type_byte vm_type_try_from read_body
    Codes-object value f = Codes-body 1 (object value) VmType.object _ refl (Codes-wrapped value f)

    Codes-struct :
        (n : ℕ) (items : VmItems)
        → item_count items < 2 ^ 64
        → Codes n (write_items items) (read_items (read_object fuel) (item_count items)) items
        → Codes (suc n) (write_object (struct items)) (read_object (suc fuel)) (struct items)
    unfolding write_object vm_type_byte vm_type_try_from read_body
    Codes-struct n items small c = Codes-weaken (suc n) (omega arith) (
        Codes-typed fuel (1 + n) (struct items) VmType.struct _ refl
          (Codes-bind _ (Codes-var_uint (item_count items) small) (Codes-end _ c refl)))

    -- One pair in front of the others.
    Codes-item :
        (m n k : ℕ) (key value : VmObject) (items : VmItems)
        → Codes m (write_object key) (read_object fuel) key
        → Codes n (write_object value) (read_object fuel) value
        → Codes k (write_items items) (read_items (read_object fuel) (item_count items)) items
        → Codes
            (max m (max n k))
            (write_items (item key value items))
            (read_items (read_object fuel) (item_count (item key value items)))
            (item key value items)
    unfolding write_items read_items item_count
    Codes-item m n k key value items c d e =
        Codes-weaken (max m (max n k)) (omega arith)
          (Codes-bind _ c (Codes-bind _ d (Codes-end _ e refl)))

  Codes-no_items :
      (fuel : ℕ) → Codes 0 (write_items no_items) (read_items (read_object fuel) 0) no_items
  unfolding write_items read_items
  Codes-no_items fuel = Codes-skip no_items

  mutual
    unfolding item_count

    Codes-vm_object :
        (fuel : ℕ) (o : VmObject)
        → Fits o
        → depth o ≤ fuel
        → Codes (depth o) (write_object o) (read_object fuel) o
    Codes-vm_object zero o f deep = absurd (omega (arith, depth_pos o))
    Codes-vm_object (suc fuel) nothing f deep = Codes-nothing fuel
    Codes-vm_object (suc fuel) (struct items) (small, f) deep =
        Codes-struct fuel (depth_items items) items small (Codes-items fuel items f (omega arith))
    Codes-vm_object (suc fuel) (bytes value) f deep = Codes-bytes fuel value f
    Codes-vm_object (suc fuel) (number value) f deep = Codes-number fuel value f
    Codes-vm_object (suc fuel) (text value) f deep = Codes-text fuel value f
    Codes-vm_object (suc fuel) (timestamp value) f deep = Codes-timestamp fuel value f
    Codes-vm_object (suc fuel) (bool value) f deep = Codes-flag fuel value
    Codes-vm_object (suc fuel) (enum value) f deep = Codes-choice fuel value f
    Codes-vm_object (suc fuel) (object value) f deep = Codes-object fuel value f

    Codes-items :
        (fuel : ℕ) (items : VmItems)
        → FitItems items
        → depth_items items ≤ fuel
        → Codes
            (depth_items items)
            (write_items items)
            (read_items (read_object fuel) (item_count items))
            items
    Codes-items fuel no_items f deep = Codes-no_items fuel
    Codes-items fuel (item key value items) (f, g, h) deep =
        Codes-item fuel (depth key) (depth value) (depth_items items) key value items
          (Codes-vm_object fuel key f (omega arith)) (Codes-vm_object fuel value g (omega arith))
          (Codes-items fuel items h (omega arith))

  -- An object whose parts fit the format is read by `from_bytes` from what `to_bytes` makes of it,
  -- structs with their fields at every depth.
  pub read_object-write_object :
      (o : VmObject) → Fits o → (raw : Bytes) × (to_bytes o ≡ ok raw) × (from_bytes raw ≡ ok o)
  unfolding from_bytes to_bytes
  read_object-write_object o f =
      let c = Codes-vm_object (depth o) o f (omega arith) in
      let fuel = suc (length c.bytes) in
      let d = Codes-vm_object fuel o f (omega (arith, c.long)) in
      let made = written_whole-bytes _ _ o c in
      let same : d.bytes ≡ c.bytes = ok-injective (sym (written_whole-bytes _ _ o d) ∙ made) in
      (
        c.bytes,
        made,
        subst (λ raw. read_whole (read_object fuel) raw ≡ ok o) same (read_whole-bytes _ _ o d),
      )
