-- ===== src/Vm/Script/Calls/Laws.antt =====
-- The composed calls of src/vm.rs are runs of single instructions.
use phantasma_sdk_rs.Prelude.{
  ℕ, ◌+◌, ◌-◌, ◌^◌, ◌≡◌, refl, ap, sym, ◌∙◌, pos, List, [], ◌∷◌, ◌++◌, ltb, leb, if◌then◌else◌,
  Bool-cases, inl, inr,
}
use phantasma_sdk_rs.Stream.{Bytes, le_bytes}
use phantasma_sdk_rs.BigInt.{BigIntBytes}
use phantasma_sdk_rs.Binary.{write_var_bytes}
use phantasma_sdk_rs.Binary.BigInteger.{big_int_to_csharp_bytes}
use phantasma_sdk_rs.Vm.Code.{Opcode, VmType, vm_type_byte}
use phantasma_sdk_rs.Vm.Script.{ScriptBuilder, max_register_count}
use phantasma_sdk_rs.Vm.Script.Refines.{written}
use phantasma_sdk_rs.Vm.Script.Instructions.{
  Instruction, refuse, operand, operation, load, perform, run,
}
use phantasma_sdk_rs.Vm.Script.Calls.{
  ScriptArg, ScriptArgs, address, text, bool, bytes, number, timestamp, array, no_args, arg,
  emit_push, emit_load_string, emit_load_number, emit_load_timestamp, load_into_register,
  load_items, insert_method_args, call_interop, call_contract,
}

-- The instructions of a load of a value, of the pushes of arguments, and of the two calls.
module _ ⦃big : BigIntBytes⦄ where
  abbrev pub index_load : ℕ → ℕ → Instruction
  index_load reg index = load reg (big_int_to_csharp_bytes (pos index)) VmType.number

  abbrev mutual
    pub loads : ℕ → ScriptArg → List Instruction
    loads reg (address value) = load reg (written (write_var_bytes value)) VmType.bytes ∷ []
    loads reg (text value) = load reg value VmType.text ∷ []
    loads reg (bool value) = load reg ((if value then 1 else 0) ∷ []) VmType.bool ∷ []
    loads reg (bytes value) = load reg value VmType.bytes ∷ []
    loads reg (number value) = load reg (big_int_to_csharp_bytes value) VmType.number ∷ []
    loads reg (timestamp value) =
        (if leb (2 ^ 32) value
          then refuse "timestamp out of VM uint32 range"
          else load reg (le_bytes 4 value) VmType.timestamp)
        ∷ []
    loads reg (array values) =
        let items = item_loads reg 0 values in
        if ltb (max_register_count - 3) reg
        then refuse "array load needs three registers" ∷ []
        else operation Opcode.cast ∷ operand reg ∷ operand reg ∷ operand 0 ∷ items

    pub item_loads : ℕ → ℕ → ScriptArgs → List Instruction
    item_loads reg index no_args = []
    item_loads reg index (arg item items) =
        loads (reg + 1) item
        ++ (index_load (reg + 2) index
            ∷ operation Opcode.put
            ∷ operand (reg + 1)
            ∷ operand reg
            ∷ operand (reg + 2)
            ∷ [])
        ++ item_loads reg (index + 1) items

  abbrev pub argument_pushes : ScriptArgs → List Instruction
  argument_pushes no_args = []
  argument_pushes (arg item items) =
      argument_pushes items ++ loads 0 item ++ (operation Opcode.push ∷ operand 0 ∷ [])

  run-append : (is js : List Instruction) (b : ScriptBuilder) → run (is ++ js) b ≡ run js (run is b)
  run-append [] js b = refl
  run-append (i ∷ is) js b = run-append is js (perform i b)

  -- The instructions of one item and those of the rest.
  item_step :
      (reg index : ℕ) (item : ScriptArg) (items : ScriptArgs) (b : ScriptBuilder)
      → ((c : ScriptBuilder) → load_into_register (reg + 1) item c ≡ run (loads (reg + 1) item) c)
      → ((c : ScriptBuilder)
          → load_items reg (index + 1) items c ≡ run (item_loads reg (index + 1) items) c)
      → load_items reg index (arg item items) b ≡ run (item_loads reg index (arg item items)) b
  unfolding load_items emit_load_number
  item_step reg index item items b first rest =
      let store =
        index_load (reg + 2) index
        ∷ operation Opcode.put
        ∷ operand (reg + 1)
        ∷ operand reg
        ∷ operand (reg + 2)
        ∷ [] in
      rest _
      ∙ ap (λ c. run (item_loads reg (index + 1) items) (run store c)) (first b)
      ∙ sym (
          run-append (loads (reg + 1) item ++ store) (item_loads reg (index + 1) items) b
          ∙ ap (run (item_loads reg (index + 1) items)) (run-append (loads (reg + 1) item) store b))

  array_step :
      (reg : ℕ) (values : ScriptArgs) (b : ScriptBuilder)
      → ((c : ScriptBuilder) → load_items reg 0 values c ≡ run (item_loads reg 0 values) c)
      → load_into_register reg (array values) b ≡ run (loads reg (array values)) b
  unfolding load_into_register vm_type_byte
  array_step reg values b items = elim (Bool-cases (ltb (max_register_count - 3) reg)) [
    | inl e ↦ rw e
    | inr e ↦ rw e (items _)
  ]

  timestamp_step :
      (reg value : ℕ) (b : ScriptBuilder)
      → load_into_register reg (timestamp value) b ≡ run (loads reg (timestamp value)) b
  unfolding load_into_register emit_load_timestamp
  timestamp_step reg value b = elim (Bool-cases (leb (2 ^ 32) value)) [
    | inl e ↦ rw e
    | inr e ↦ rw e
  ]

  mutual
    unfolding load_into_register

    load_into_register-run :
        (reg : ℕ) (value : ScriptArg) (b : ScriptBuilder)
        → load_into_register reg value b ≡ run (loads reg value) b
    load_into_register-run reg (address value) b = refl
    load_into_register-run reg (text value) b = refl
    load_into_register-run reg (bool value) b = refl
    load_into_register-run reg (bytes value) b = refl
    load_into_register-run reg (number value) b = refl
    load_into_register-run reg (timestamp value) b = timestamp_step reg value b
    load_into_register-run reg (array values) b =
        array_step reg values b (λ c. load_items-run reg 0 values c)

    load_items-run :
        (reg index : ℕ) (items : ScriptArgs) (b : ScriptBuilder)
        → load_items reg index items b ≡ run (item_loads reg index items) b
    load_items-run reg index no_args b = refl
    load_items-run reg index (arg item items) b =
        item_step reg index item items b (λ c. load_into_register-run (reg + 1) item c)
          (λ c. load_items-run reg (index + 1) items c)

  insert_method_args-run :
      (args : ScriptArgs) (b : ScriptBuilder)
      → insert_method_args args b ≡ run (argument_pushes args) b
  unfolding insert_method_args emit_push
  insert_method_args-run no_args b = refl
  insert_method_args-run (arg item items) b =
      let push = operation Opcode.push ∷ operand 0 ∷ [] in
      ap (run push) (
        load_into_register-run 0 item (insert_method_args items b)
        ∙ ap (run (loads 0 item)) (insert_method_args-run items b))
      ∙ sym (
          run-append (argument_pushes items ++ loads 0 item) push b
          ∙ ap (run push) (run-append (argument_pushes items) (loads 0 item) b))

  abbrev pub interop_call : Bytes → ScriptArgs → List Instruction
  interop_call method args =
      argument_pushes args
      ++ (load 0 method VmType.text ∷ operation Opcode.ext_call ∷ operand 0 ∷ [])

  abbrev pub contract_call : Bytes → Bytes → ScriptArgs → List Instruction
  contract_call contract_name method args =
      argument_pushes args
      ++ (load 0 method VmType.text
          ∷ operation Opcode.push
          ∷ operand 0
          ∷ load 0 contract_name VmType.text
          ∷ operation Opcode.ctx
          ∷ operand 0
          ∷ operand 1
          ∷ operation Opcode.switch
          ∷ operand 1
          ∷ [])

  -- A call of an interop or of a contract does what its instructions do one by one: the arguments,
  -- arrays with their items and indices, are loaded and pushed from the last to the first, then come
  -- the method and, for a contract, its name and the switch to it.
  pub call_interop-call_contract :
      (contract_name method : Bytes) (args : ScriptArgs) (b : ScriptBuilder)
      → (call_interop method args b ≡ run (interop_call method args) b)
        × (call_contract contract_name method args b
            ≡ run (contract_call contract_name method args) b)
  unfolding call_interop call_contract emit_load_string emit_push
  call_interop-call_contract contract_name method args b =
      let pushed = insert_method_args-run args b in
      (
        ap (run (interop_call method no_args)) pushed ∙ sym (run-append (argument_pushes args) _ b),
        ap (run (contract_call contract_name method no_args)) pushed
            ∙ sym (run-append (argument_pushes args) _ b),
      )
