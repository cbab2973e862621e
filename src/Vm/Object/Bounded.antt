-- ===== src/Vm/Object/Bounded.antt =====
-- What the reader of objects of src/vm.rs takes: each object takes a byte, so that the fuel of
-- `from_bytes` does not run out.
use phantasma_sdk_rs.Prelude.{
  ℕ, zero, suc, ◌+◌, ◌-◌, ◌≤◌, ◌<◌, ◌≡◌, ◌≢◌, arith, Bool, true, false, ltb, ◌==◌, Bool-cases, inl,
  inr, length, String, if◌then◌else◌, subst,
}
use phantasma_sdk_rs.Error.{
  PhantasmaError, Result, ok, err, encoding, serialization, crypto, builder, panicked,
}
use phantasma_sdk_rs.Stream.{
  Bytes, Reader, Get, pure, fail, ◌>>=◌, remaining, read, new_reader, assert_eof,
}
use phantasma_sdk_rs.Text.{is_utf8, from_utf8}
use phantasma_sdk_rs.BigInt.{BigIntBytes}
use phantasma_sdk_rs.Binary.{
  max_array_size, read_u8, read_u16_le, read_u32_le, read_u64_le, read_bool, var_uint_after,
  read_var_uint, read_sized, read_var_bytes, read_string, read_whole, whole_value,
}
use phantasma_sdk_rs.Binary.BigInteger.{read_big_integer}
use phantasma_sdk_rs.Vm.Code.{VmType, vm_type_try_from}
use phantasma_sdk_rs.Vm.Object.{
  VmObject, no_items, item, lift_type, read_items, read_body, read_object, from_bytes,
}

abbrev pub NoPanic : PhantasmaError → Type 0
NoPanic (panicked message) = ⊥
NoPanic e = Unit

module _ {A : Type 0} where
  -- An answer that took at least `size` bytes, or an error that is no panic.
  abbrev pub Took : ℕ → Reader → Result (A × Reader) → Type 0
  Took size r (ok (a, after)) = remaining after + size ≤ remaining r
  Took size r (err e) = NoPanic e

  -- A read that takes at least `size` bytes of no more than `bound` that are left, without a panic.
  abbrev pub Takes : ℕ → ℕ → Get A → Type 0
  Takes size bound p = (r : Reader) → remaining r ≤ bound → Took size r (p r)

  pub Takes-pure : (bound : ℕ) (a : A) → Takes 0 bound (pure a)
  unfolding pure
  Takes-pure bound a r h = omega arith

  Took-weaken :
      (size less : ℕ) (r : Reader) (answer : Result (A × Reader))
      → less ≤ size
      → Took size r answer
      → Took less r answer
  Took-weaken size less r (ok (a, after)) h k = omega arith
  Took-weaken size less r (err e) h k = k

  -- Fewer bytes that are left.
  pub Takes-lower :
      (size bound less : ℕ) (p : Get A) → less ≤ bound → Takes size bound p → Takes size less p
  Takes-lower size bound less p h t r small = t r (omega arith)

  pub Takes-if :
      (size bound : ℕ) (test : Bool) (p q : Get A)
      → Takes size bound p
      → Takes size bound q
      → Takes size bound (if test then p else q)
  Takes-if size bound true p q h k = h
  Takes-if size bound false p q h k = k

  pub Takes-weaken :
      (size less bound : ℕ) (p : Get A) → less ≤ size → Takes size bound p → Takes less bound p
  Takes-weaken size less bound p h t r small = Took-weaken size less r (p r) h (t r small)

pub Takes-fail :
    (A : Type 0) (size bound : ℕ) (e : PhantasmaError)
    → NoPanic e
    → Takes size bound (fail {A = A} e)
unfolding fail
Takes-fail A size bound e h r small = h

module _ {A B : Type 0} where
  pub Takes-bind :
      (size more bound : ℕ) (p : Get A) (f : A → Get B)
      → Takes size bound p
      → ((a : A) → size ≤ bound → Takes more (bound - size) (f a))
      → Takes (size + more) bound (p >>= f)
  unfolding ◌>>=◌
  Takes-bind size more bound p f first next r small = go (p r) (first r small)
    where
      shrink :
          (after : Reader) (answer : Result (B × Reader))
          → remaining after + size ≤ remaining r
          → Took more after answer
          → Took (size + more) r answer
      shrink after (ok (b, last)) h k = omega arith
      shrink after (err e) h k = k

      go :
          (answer : Result (A × Reader))
          → Took size r answer
          → Took (size + more) r (elim answer [ ok (a, after) ↦ f a after | err e ↦ err e ])
      go (ok (a, after)) h =
          shrink after (f a after) h
            (next a (omega (arith, h, small)) after (omega (arith, h, small)))
      go (err e) h = h

  -- The last step of a read, which takes nothing itself.
  pub Takes-end :
      (size bound : ℕ) (p : Get A) (f : A → B)
      → Takes size bound p
      → Takes size bound (p >>= λ a. pure (f a))
  Takes-end size bound p f first =
      subst (λ n. Takes n bound (p >>= λ a. pure (f a))) (plus_zero size)
        (Takes-bind size 0 bound p _ first (λ a h. Takes-pure _ (f a)))
    where
      plus_zero : (n : ℕ) → n + 0 ≡ n
      plus_zero n = omega arith

  pub Takes-some :
      (size bound : ℕ) (p : Get A) (f : A → B)
      → Takes size bound p
      → Takes 0 bound (p >>= λ a. pure (f a))
  Takes-some size bound p f first =
      Takes-weaken size 0 bound _ (omega arith) (Takes-end size bound p f first)

pub Takes-read : (count bound : ℕ) → Takes count bound (read count)
unfolding read remaining
Takes-read count bound r small = elim (Bool-cases (ltb (remaining r) count)) [
  | inl e ↦ rw e tt
  | inr e ↦ rw e (ground arith)
]

Takes-u8 : (bound : ℕ) → Takes 1 bound read_u8
unfolding read_u8
Takes-u8 bound = Takes-end 1 bound (read 1) _ (Takes-read 1 bound)

-- A number of a fixed width, of which no byte needs to be counted here.
Takes-width :
    {A : Type 0} (width bound : ℕ) (f : Bytes → A)
    → Takes 0 bound (read width >>= λ raw. pure (f raw))
Takes-width width bound f =
    Takes-weaken width 0 bound _ (omega arith)
      (Takes-end width bound (read width) f (Takes-read width bound))

Takes-var_uint : (bound : ℕ) → Takes 1 bound read_var_uint
unfolding read_var_uint var_uint_after read_u16_le read_u32_le read_u64_le
Takes-var_uint bound = Takes-bind 1 0 bound read_u8 _ (Takes-u8 bound) (λ tag h.
    Takes-if 0 _ (tag == 0xFD) _ _ (Takes-width 2 _ _) (
      Takes-if 0 _ (tag == 0xFE) _ _ (Takes-width 4 _ _)
        (Takes-if 0 _ (tag == 0xFF) _ _ (Takes-width 8 _ _) (Takes-pure _ tag))))

Takes-var_bytes : (bound : ℕ) → Takes 1 bound (read_var_bytes max_array_size)
unfolding read_var_bytes read_sized
Takes-var_bytes bound = Takes-bind 1 0 bound read_var_uint _ (Takes-var_uint bound) (λ size h.
    Takes-if 0 _ (ltb max_array_size size) _ _ (Takes-fail _ 0 _ _ tt)
      (Takes-weaken size 0 _ _ (omega arith) (Takes-read size _)))

Takes-string : (bound : ℕ) → Takes 1 bound read_string
unfolding read_string from_utf8
Takes-string bound =
    Takes-bind 1 0 bound (read_var_bytes max_array_size) _ (Takes-var_bytes bound)
      (λ raw h. Takes-if 0 _ (is_utf8 raw) _ _ (Takes-pure _ raw) (Takes-fail _ 0 _ _ tt))

-- The pairs of a struct, when the reader of objects takes something.
Takes-items :
    (p : Get VmObject) (count bound : ℕ) → Takes 1 bound p → Takes 0 bound (read_items p count)
unfolding read_items
Takes-items p zero bound h = Takes-pure bound no_items
Takes-items p (suc count) bound h =
    let again : (k : ℕ) → Takes 0 (bound - k) p =
      λ k. Takes-weaken 1 0 _ p (omega arith) (Takes-lower 1 bound _ p (omega arith) h) in
    Takes-bind 0 0 bound p _ (Takes-weaken 1 0 bound p (omega arith) h) (λ key first.
      Takes-bind 0 0 _ p _ (again 0) (λ value second.
        Takes-end 0 _ (read_items p count) (item key value)
          (Takes-lower 0 bound _ _ (omega arith) (Takes-items p count bound h))))

abbrev pub KeepsOff : Result VmType → Type 0
KeepsOff (ok value) = Unit
KeepsOff (err e) = NoPanic e

if-KeepsOff :
    (test : Bool) (value : VmType) (other : Result VmType)
    → KeepsOff other
    → KeepsOff (if test then ok value else other)
if-KeepsOff true value other h = tt
if-KeepsOff false value other h = h

vm_type_try_from-KeepsOff : (tag : ℕ) → KeepsOff (vm_type_try_from tag)
unfolding vm_type_try_from
vm_type_try_from-KeepsOff tag = if-KeepsOff (tag == 0) _ _ (
    if-KeepsOff (tag == 1) _ _ (
      if-KeepsOff (tag == 2) _ _ (
        if-KeepsOff (tag == 3) _ _ (
          if-KeepsOff (tag == 4) _ _ (
            if-KeepsOff (tag == 5) _ _ (
              if-KeepsOff (tag == 6) _ _
                (if-KeepsOff (tag == 7) _ _ (if-KeepsOff (tag == 8) _ _ tt))))))))

Takes-type :
    (bound : ℕ) (answer : Result VmType) → KeepsOff answer → Takes 0 bound (lift_type answer)
unfolding lift_type
Takes-type bound (ok value) h r small = omega arith
Takes-type bound (err e) h r small = h

last_check :
    (at_end : Bool) (value : VmObject) (message : String)
    → whole_value value (if at_end then ok tt else err (serialization "unexpected trailing bytes"))
      ≢ err (panicked message)
unfolding whole_value
last_check true value message bad = cc
last_check false value message bad = cc

ended :
    (start : Reader) (answer : Result (VmObject × Reader))
    → Took 1 start answer
    → (message : String)
    → elim answer [ ok (value, r) ↦ whole_value value (assert_eof r) | err e ↦ err e ]
      ≢ err (panicked message)
unfolding assert_eof whole_value
ended start (ok (value, r)) h message bad = last_check (remaining r == 0) value message bad
ended start (err (panicked other)) h message bad = absurd h
ended start (err (encoding other)) h message bad = cc
ended start (err (serialization other)) h message bad = cc
ended start (err (crypto other)) h message bad = cc
ended start (err (builder other)) h message bad = cc

module _ ⦃big : BigIntBytes⦄ where
  Takes-body :
      (inner : Get VmObject) (type : VmType) (bound : ℕ)
      → Takes 1 bound inner
      → Takes 0 bound (read_body inner type)
  unfolding read_body read_bool read_big_integer read_u32_le
  Takes-body inner VmType.none_type bound h = Takes-pure bound _
  Takes-body inner VmType.bool bound h =
      Takes-some 1 bound read_bool _ (Takes-end 1 bound read_u8 _ (Takes-u8 bound))
  Takes-body inner VmType.bytes bound h = Takes-some 1 bound _ _ (Takes-var_bytes bound)
  Takes-body inner VmType.enum bound h = Takes-some 1 bound read_u8 _ (Takes-u8 bound)
  Takes-body inner VmType.number bound h =
      Takes-some 1 bound read_big_integer _ (Takes-end 1 bound _ _ (Takes-var_bytes bound))
  Takes-body inner VmType.text bound h = Takes-some 1 bound read_string _ (Takes-string bound)
  Takes-body inner VmType.timestamp bound h =
      Takes-some 4 bound read_u32_le _ (Takes-end 4 bound (read 4) _ (Takes-read 4 bound))
  Takes-body inner VmType.object bound h = Takes-some 1 bound _ _ (Takes-var_bytes bound)
  Takes-body inner VmType.struct bound h = Takes-weaken 1 0 bound _ (omega arith) (
      Takes-bind 1 0 bound read_var_uint _ (Takes-var_uint bound) (λ count first.
        Takes-end 0 _ (read_items inner count) _
          (Takes-items inner count _ (Takes-lower 1 bound _ inner (omega arith) h))))

  -- One object, when those within it are read from fewer bytes.
  turn :
      (fuel bound : ℕ)
      → bound < suc fuel
      → ((less : ℕ) → less < fuel → Takes 1 less (read_object fuel))
      → Takes 1 bound (read_object (suc fuel))
  unfolding read_object
  turn fuel bound h inner = Takes-bind 1 0 bound read_u8 _ (Takes-u8 bound) (λ tag first.
      Takes-bind 0 0 (bound - 1) (lift_type (vm_type_try_from tag)) _
        (Takes-type _ _ (vm_type_try_from-KeepsOff tag))
        (λ type second. Takes-body (read_object fuel) type _ (inner _ (omega arith))))

  pub Takes-object : (fuel bound : ℕ) → bound < fuel → Takes 1 bound (read_object fuel)
  Takes-object zero bound h = absurd (omega arith)
  Takes-object (suc fuel) bound h = turn fuel bound h (λ less k. Takes-object fuel less k)

  pub from_bytes_in_depth :
      (data_bytes : Bytes) (message : String) → from_bytes data_bytes ≢ err (panicked message)
  unfolding from_bytes read_whole new_reader remaining
  from_bytes_in_depth data_bytes message =
      let start : Reader = record { data_bytes = data_bytes; offset = 0 } in
      ended start (read_object (suc (length data_bytes)) start)
        (Takes-object (suc (length data_bytes)) (length data_bytes) (omega arith) start
          (omega arith))
        message
