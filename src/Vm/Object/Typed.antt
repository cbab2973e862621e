-- ===== src/Vm/Object/Typed.antt =====
-- What the reader of objects of src/vm.rs answers is in the range of the types of its fields.
use phantasma_sdk_rs.Prelude.{
  ℕ, zero, suc, ◌^◌, ◌≤◌, ◌<◌, ◌≡◌, ap, ◌∙◌, arith, subst, [], ◌∷◌, Bool, true, false, ltb, ◌==◌,
  Bool-cases, inl, inr, length, drop, get_or, if◌then◌else◌, All,
}
use phantasma_sdk_rs.Error.{PhantasmaError, Result, ok, err, ok-injective}
use phantasma_sdk_rs.Stream.{
  Bytes, Reader, Get, pure, fail, ◌>>=◌, remaining, read, new_reader, assert_eof, from_le,
}
use phantasma_sdk_rs.Stream.Bytes.{IsByte, All-take, All-drop, length-take, length-drop, from_le-lt}
use phantasma_sdk_rs.Text.{is_utf8, from_utf8}
use phantasma_sdk_rs.BigInt.{BigIntBytes}
use phantasma_sdk_rs.Binary.{
  max_array_size, read_u8, read_u16_le, read_u32_le, read_u64_le, read_bool, var_uint_after,
  read_var_uint, read_sized, read_var_bytes, read_string, read_whole, whole_value,
}
use phantasma_sdk_rs.Binary.BigInteger.{read_big_integer}
use phantasma_sdk_rs.Vm.Code.{VmType, vm_type_try_from}
use phantasma_sdk_rs.Vm.Object.{
  VmObject, VmItems, nothing, struct, bytes, number, text, timestamp, bool, enum, object, no_items,
  item, lift_type, wrapped_or_bytes, read_items, read_body, read_object, from_bytes,
}

-- The values that the Rust types of the fields have, with the limits of the reader.
abbrev mutual
  pub IsTyped : VmObject → Type 0
  IsTyped nothing = Unit
  IsTyped (struct items) = AreTyped items
  IsTyped (bytes value) = All IsByte value × (length value ≤ max_array_size)
  IsTyped (number value) = Unit
  IsTyped (text value) = (is_utf8 value ≡ true) × (length value ≤ max_array_size)
  IsTyped (timestamp value) = value < 2 ^ 32
  IsTyped (bool value) = Unit
  IsTyped (enum value) = value < 256
  IsTyped (object value) = All IsByte value × (length value ≡ 34)

  pub AreTyped : VmItems → Type 0
  AreTyped no_items = Unit
  AreTyped (item key value items) = IsTyped key × IsTyped value × AreTyped items

module _ {A : Type 0} where
  -- An answer with a property, if there is one; the bytes that are read from stay bytes.
  abbrev pub Holds : (A → Type 0) → Result (A × Reader) → Type 0
  Holds P (ok (a, after)) = P a × All IsByte after.data_bytes
  Holds P (err e) = Unit

  abbrev pub Gives : (A → Type 0) → Get A → Type 0
  Gives P p = (r : Reader) → All IsByte r.data_bytes → Holds P (p r)

  Gives-pure : (P : A → Type 0) (a : A) → P a → Gives P (pure a)
  unfolding pure
  Gives-pure P a h r real = (h, real)

  Gives-if :
      (P : A → Type 0) (test : Bool) (p q : Get A)
      → Gives P p
      → Gives P q
      → Gives P (if test then p else q)
  Gives-if P true p q h k = h
  Gives-if P false p q h k = k

module _ {A : Type 0} (P Q : A → Type 0) where
  Holds-weaken :
      (answer : Result (A × Reader)) → ((a : A) → P a → Q a) → Holds P answer → Holds Q answer
  Holds-weaken (ok (a, after)) wider (h, still) = (wider a h, still)
  Holds-weaken (err e) wider h = tt

  Gives-weaken : (p : Get A) → ((a : A) → P a → Q a) → Gives P p → Gives Q p
  Gives-weaken p wider given r real = Holds-weaken (p r) wider (given r real)

Gives-fail : (A : Type 0) (P : A → Type 0) (e : PhantasmaError) → Gives P (fail {A = A} e)
unfolding fail
Gives-fail A P e r real = tt

module _ {A B : Type 0} (P : A → Type 0) (Q : B → Type 0) where
  Gives-bind :
      (p : Get A) (f : A → Get B) → Gives P p → ((a : A) → P a → Gives Q (f a)) → Gives Q (p >>= f)
  unfolding ◌>>=◌
  Gives-bind p f first next r real = go (p r) (first r real)
    where
      go :
          (answer : Result (A × Reader))
          → Holds P answer
          → Holds Q (elim answer [ ok (a, after) ↦ f a after | err e ↦ err e ])
      go (ok (a, after)) (h, still) = next a h after still
      go (err e) h = tt

-- Some bytes of a given number.
abbrev pub SomeBytes : ℕ → Bytes → Type 0
SomeBytes count raw = All IsByte raw × (length raw ≡ count)

Gives-read : (count : ℕ) → Gives (SomeBytes count) (read count)
unfolding read remaining
Gives-read count r real = elim (Bool-cases (ltb (remaining r) count)) [
  | inl e ↦ rw e tt
  | inr e ↦
      let enough : count ≤ length (drop r.offset r.data_bytes) =
        ground (arith, length-drop r.offset r.data_bytes) in
      rw e
        ((All-take count _ (All-drop r.offset r.data_bytes real), length-take count _ enough), real)
]

first_byte : (raw : Bytes) → SomeBytes 1 raw → get_or raw 0 0 < 256
first_byte [] (h, size) = omega arith
first_byte (b ∷ raw) ((h, hs), size) = h

Gives-u8 : Gives (λ value. value < 256) read_u8
unfolding read_u8
Gives-u8 =
    Gives-bind (SomeBytes 1) _ (read 1) _ (Gives-read 1)
      (λ raw h. Gives-pure _ (get_or raw 0 0) (first_byte raw h))

Gives-u32 : Gives (λ value. value < 2 ^ 32) read_u32_le
unfolding read_u32_le
Gives-u32 = Gives-bind (SomeBytes 4) _ (read 4) _ (Gives-read 4) (λ raw h.
    Gives-pure _ (from_le raw) (omega (arith, from_le-lt raw h.0, ap (λ (n : ℕ). 256 ^ n) h.1)))

-- A value of which nothing is asked.
abbrev pub Any {ℓ} : {A : Type ℓ} → A → Type 0
Any a = Unit

Gives-width :
    {A : Type 0} (width : ℕ) (f : Bytes → A) → Gives Any (read width >>= λ raw. pure (f raw))
Gives-width width f =
    Gives-bind (SomeBytes width) Any (read width) _ (Gives-read width)
      (λ raw h. Gives-pure Any (f raw) tt)

Gives-var_uint : Gives Any read_var_uint
unfolding read_var_uint var_uint_after read_u16_le read_u32_le read_u64_le
Gives-var_uint =
    Gives-bind (λ value. value < 256) Any read_u8 _ Gives-u8
      (λ tag h. Gives-if Any (tag == 0xFD) _ _ (Gives-width 2 _) (
        Gives-if Any (tag == 0xFE) _ _ (Gives-width 4 _)
          (Gives-if Any (tag == 0xFF) _ _ (Gives-width 8 _) (Gives-pure Any tag tt))))

abbrev pub ShortBytes : Bytes → Type 0
ShortBytes raw = All IsByte raw × (length raw ≤ max_array_size)

Gives-sized : (size : ℕ) → Gives ShortBytes (read_sized max_array_size size)
unfolding read_sized
Gives-sized size = elim (Bool-cases (ltb max_array_size size)) [
  | inl e ↦ rw e (Gives-fail Bytes ShortBytes _)
  | inr e ↦ rw e (
      Gives-weaken (SomeBytes size) ShortBytes (read size) (λ raw h. (h.0, ground (arith, h.1)))
        (Gives-read size))
]

Gives-var_bytes : Gives ShortBytes (read_var_bytes max_array_size)
unfolding read_var_bytes
Gives-var_bytes =
    Gives-bind Any ShortBytes read_var_uint _ Gives-var_uint (λ size h. Gives-sized size)

Gives-string : Gives (λ value. (is_utf8 value ≡ true) × (length value ≤ max_array_size)) read_string
unfolding read_string from_utf8
Gives-string = Gives-bind ShortBytes _ (read_var_bytes max_array_size) _ Gives-var_bytes (λ raw h.
    elim (Bool-cases (is_utf8 raw)) [
      | inl e ↦ rw e (Gives-pure _ raw (e, h.1))
      | inr e ↦ rw e (Gives-fail Bytes _ _)
    ])

wrapped-IsTyped : (raw : Bytes) → ShortBytes raw → IsTyped (wrapped_or_bytes raw)
unfolding wrapped_or_bytes
wrapped-IsTyped raw h = elim (Bool-cases (length raw == 35)) [
  | inl e ↦ elim (Bool-cases (get_or raw 0 0 == 34)) [
    | inl d ↦ rw (e, d) (All-drop 1 raw h.0, length-drop 1 raw ∙ ground arith)
    | inr d ↦ rw (e, d) h
  ]
  | inr e ↦ rw e h
]

Gives-items : (p : Get VmObject) (count : ℕ) → Gives IsTyped p → Gives AreTyped (read_items p count)
unfolding read_items
Gives-items p zero h = Gives-pure AreTyped no_items tt
Gives-items p (suc count) h = Gives-bind IsTyped AreTyped p _ h (λ key first.
    Gives-bind IsTyped AreTyped p _ h (λ value second.
      Gives-bind AreTyped AreTyped (read_items p count) _ (Gives-items p count h)
        (λ items third. Gives-pure AreTyped (item key value items) (first, second, third))))

Gives-type : (answer : Result VmType) → Gives Any (lift_type answer)
unfolding lift_type
Gives-type (ok type) r real = (tt, real)
Gives-type (err e) r real = tt

whole_same :
    (value o : VmObject) (done : Result (Unit {0})) → whole_value value done ≡ ok o → value ≡ o
unfolding whole_value
whole_same value o (ok _) h = ok-injective h
whole_same value o (err e) h = absurd cc

answer-IsTyped :
    (answer : Result (VmObject × Reader)) (o : VmObject)
    → Holds IsTyped answer
    → elim answer [ ok (value, r) ↦ whole_value value (assert_eof r) | err e ↦ err e ] ≡ ok o
    → IsTyped o
answer-IsTyped (ok (value, r)) o (typed, still) h =
    subst IsTyped (whole_same value o (assert_eof r) h) typed
answer-IsTyped (err e) o typed h = absurd cc

module _ ⦃big : BigIntBytes⦄ where
  Gives-body :
      (inner : Get VmObject) (type : VmType)
      → Gives IsTyped inner
      → Gives IsTyped (read_body inner type)
  unfolding read_body read_bool read_big_integer
  Gives-body inner VmType.none_type h = Gives-pure IsTyped nothing tt
  Gives-body inner VmType.bool h =
      Gives-bind Any IsTyped read_bool _
        (Gives-bind (λ value. value < 256) Any read_u8 _ Gives-u8 (λ value k. Gives-pure Any _ tt))
        (λ value k. Gives-pure IsTyped (bool value) tt)
  Gives-body inner VmType.bytes h =
      Gives-bind ShortBytes IsTyped _ _ Gives-var_bytes
        (λ value k. Gives-pure IsTyped (bytes value) k)
  Gives-body inner VmType.enum h =
      Gives-bind (λ value. value < 256) IsTyped read_u8 _ Gives-u8
        (λ value k. Gives-pure IsTyped (enum value) k)
  Gives-body inner VmType.number h =
      Gives-bind Any IsTyped read_big_integer _
        (Gives-bind ShortBytes Any _ _ Gives-var_bytes (λ raw k. Gives-pure Any _ tt))
        (λ value k. Gives-pure IsTyped (number value) tt)
  Gives-body inner VmType.text h =
      Gives-bind _ IsTyped read_string _ Gives-string (λ value k. Gives-pure IsTyped (text value) k)
  Gives-body inner VmType.timestamp h =
      Gives-bind (λ value. value < 2 ^ 32) IsTyped read_u32_le _ Gives-u32
        (λ value k. Gives-pure IsTyped (timestamp value) k)
  Gives-body inner VmType.object h =
      Gives-bind ShortBytes IsTyped _ _ Gives-var_bytes
        (λ raw k. Gives-pure IsTyped (wrapped_or_bytes raw) (wrapped-IsTyped raw k))
  Gives-body inner VmType.struct h =
      Gives-bind Any IsTyped read_var_uint _ Gives-var_uint (λ count k.
        Gives-bind AreTyped IsTyped (read_items inner count) _ (Gives-items inner count h)
          (λ items typed. Gives-pure IsTyped (struct items) typed))

  Gives-object : (fuel : ℕ) → Gives IsTyped (read_object fuel)
  unfolding read_object
  Gives-object zero = Gives-fail VmObject IsTyped _
  Gives-object (suc fuel) =
      Gives-bind (λ value. value < 256) IsTyped read_u8 _ Gives-u8
        (λ tag k.
          Gives-bind Any IsTyped (lift_type (vm_type_try_from tag)) _ (Gives-type _)
            (λ type m. Gives-body (read_object fuel) type (Gives-object fuel)))

  -- An object that `from_bytes` reads from bytes has in every field, at every depth, a value of the
  -- Rust type of the field: an enum of one byte, a timestamp of 32 bits, a text of UTF-8, bytes
  -- within the limit, and 34 of them for an address.
  pub from_bytes-IsTyped :
      (data_bytes : Bytes) (o : VmObject)
      → All IsByte data_bytes
      → from_bytes data_bytes ≡ ok o
      → IsTyped o
  unfolding from_bytes read_whole new_reader
  from_bytes-IsTyped data_bytes o real h =
      let start : Reader = record { data_bytes = data_bytes; offset = 0 } in
      answer-IsTyped (read_object (suc (length data_bytes)) start) o
        (Gives-object (suc (length data_bytes)) start real) h
