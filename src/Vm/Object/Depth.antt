-- ===== src/Vm/Object/Depth.antt =====
-- The depth of the reader of objects of src/vm.rs: more fuel than one level for each byte and one
-- more changes no answer.
use phantasma_sdk_rs.Prelude.{
  ℕ, zero, suc, ◌≤◌, ◌<◌, ◌≡◌, ◌≢◌, refl, ap, sym, subst, ◌∙◌, arith, ◌⊎◌, inl, inr, length,
}
use phantasma_sdk_rs.Error.{PhantasmaError, Result, ok, err, panicked}
use phantasma_sdk_rs.Stream.{Bytes, Reader, Get, fail, ◌>>=◌, remaining, new_reader, assert_eof}
use phantasma_sdk_rs.BigInt.{BigIntBytes}
use phantasma_sdk_rs.Binary.{read_u8, read_var_uint, read_whole, whole_value}
use phantasma_sdk_rs.Vm.Code.{VmType, vm_type_try_from}
use phantasma_sdk_rs.Vm.Object.{VmObject, lift_type, read_items, read_body, read_object, from_bytes}
use phantasma_sdk_rs.Vm.Object.Bounded.{Took, Takes-object, from_bytes_in_depth}

-- What the reader answers when its fuel has run out.
abbrev no_fuel : PhantasmaError
no_fuel = panicked "the depth is above the fuel"

-- The first read has run out of fuel, or the two answer the same.
abbrev Below : {A : Type 0} → Get A → Get A → Type 0
Below p q = (r : Reader) → (p r ≡ err no_fuel) ⊎ (p r ≡ q r)

module _ {A : Type 0} where
  Below-same : (p : Get A) → Below p p
  Below-same p r = inr refl

module _ {A B : Type 0} where
  -- The second step, after the answer of the first.
  abbrev onward : (A → Get B) → Result (A × Reader) → Result (B × Reader)
  onward f answer = elim answer [ ok (a, after) ↦ f a after | err e ↦ err e ]

  onward-Below :
      (f g : A → Get B) (answer : Result (A × Reader))
      → ((a : A) → Below (f a) (g a))
      → (onward f answer ≡ err no_fuel) ⊎ (onward f answer ≡ onward g answer)
  onward-Below f g (ok (a, after)) next = next a after
  onward-Below f g (err e) next = inr refl

  Below-bind :
      (p q : Get A) (f g : A → Get B)
      → Below p q
      → ((a : A) → Below (f a) (g a))
      → Below (p >>= f) (q >>= g)
  unfolding ◌>>=◌
  Below-bind p q f g first next r = elim (first r) [
    | inl out ↦ inl (ap (onward f) out)
    | inr same ↦ elim (onward-Below f g (p r) next) [
      | inl out ↦ inl out
      | inr rest ↦ inr (rest ∙ ap (onward g) same)
    ]
  ]

Below-items :
    (p q : Get VmObject) (count : ℕ) → Below p q → Below (read_items p count) (read_items q count)
unfolding read_items
Below-items p q zero h = Below-same _
Below-items p q (suc count) h = Below-bind p q _ _ h (λ key.
    Below-bind p q _ _ h
      (λ value. Below-bind _ _ _ _ (Below-items p q count h) (λ items. Below-same _)))

module _ ⦃big : BigIntBytes⦄ where
  Below-body :
      (p q : Get VmObject) (type : VmType) → Below p q → Below (read_body p type) (read_body q type)
  unfolding read_body
  Below-body p q VmType.none_type h = Below-same _
  Below-body p q VmType.bool h = Below-same _
  Below-body p q VmType.bytes h = Below-same _
  Below-body p q VmType.enum h = Below-same _
  Below-body p q VmType.number h = Below-same _
  Below-body p q VmType.text h = Below-same _
  Below-body p q VmType.timestamp h = Below-same _
  Below-body p q VmType.object h = Below-same _
  Below-body p q VmType.struct h =
      Below-bind _ _ _ _ (Below-same read_var_uint)
        (λ count. Below-bind _ _ _ _ (Below-items p q count h) (λ items. Below-same _))

  Below-object : (fuel more : ℕ) → fuel ≤ more → Below (read_object fuel) (read_object more)
  unfolding read_object fail
  Below-object zero more h = λ r. inl refl
  Below-object (suc fuel) zero h = absurd (omega arith)
  Below-object (suc fuel) (suc more) h = Below-bind _ _ _ _ (Below-same read_u8) (λ tag.
      Below-bind _ _ _ _ (Below-same (lift_type (vm_type_try_from tag)))
        (λ type. Below-body _ _ type (Below-object fuel more (omega arith))))

  enough :
      (start : Reader) (answer other : Result (VmObject × Reader))
      → Took 1 start answer
      → (answer ≡ err no_fuel) ⊎ (answer ≡ other)
      → other ≡ answer
  enough start answer other took (inl out) = absurd (subst (Took 1 start) out took)
  enough start answer other took (inr same) = sym same

  -- The recursion of the reader of VM objects is bounded by its input: on every input, the fuel of
  -- the model, a depth of one more than the number of the bytes, does not run out, and the reader
  -- answers the same with any more fuel. The stack that this depth takes is not modelled.
  pub from_bytes_enough_fuel :
      (data_bytes : Bytes) (fuel : ℕ)
      → length data_bytes < fuel
      → (from_bytes data_bytes ≢ err (panicked "the depth is above the fuel"))
        × (read_whole (read_object fuel) data_bytes ≡ from_bytes data_bytes)
  unfolding from_bytes read_whole new_reader remaining
  from_bytes_enough_fuel data_bytes fuel h =
      let start : Reader = record { data_bytes = data_bytes; offset = 0 } in
      let least = suc (length data_bytes) in
      (
        from_bytes_in_depth data_bytes "the depth is above the fuel",
        ap (λ t. elim t [ ok (value, r) ↦ whole_value value (assert_eof r) | err e ↦ err e ])
            (enough start (read_object least start) (read_object fuel start)
              (Takes-object least (length data_bytes) (omega arith) start (omega arith))
              (Below-object least fuel (omega arith) start)),
      )
