-- ===== src/Vm/Script/Errors.antt =====
-- The error that a ScriptBuilder of src/vm.rs keeps: that of the first instruction which
-- it refused.
use phantasma_sdk_rs.Prelude.{
  ℕ, ◌≡◌, refl, ap, sym, ◌∙◌, List, [], ◌∷◌, ◌||◌, ltb, ◌==◌, Option, none, some, length, String,
  Bool-cases, inl, inr, subst,
}
use phantasma_sdk_rs.Error.{PhantasmaError, Result, ok, err, builder}
use phantasma_sdk_rs.Stream.{Bytes, Put, Writer}
use phantasma_sdk_rs.Vm.Code.{Opcode, opcode_byte, is_jump, is_jmp, is_conditional_jump, VmType}
use phantasma_sdk_rs.Vm.Script.{
  ScriptBuilder, max_register_count, fail, byte, emit, emit_raw, emit_load, emit_label, emit_jump,
  emit_call, emit_conditional_jump, emit_var_bytes, through, reserve_target,
}
use phantasma_sdk_rs.Vm.Script.Instructions.{
  Instruction, refuse, operand, operation, plain, load, label, jump, conditional, call, var_uint,
  perform, run, refusal, first_refusal,
}
use phantasma_sdk_rs.Binary.{write_u8}
use phantasma_sdk_rs.Vm.Script.Laws.{conditional-is_jump}

-- The first error stays.
abbrev pub latch : Option PhantasmaError → Option String → Option PhantasmaError
latch (some e) message = some e
latch none none = none
latch none (some message) = some (builder message)

latch-none : (error : Option PhantasmaError) → latch error none ≡ error
latch-none none = refl
latch-none (some e) = refl

fail-error :
    (message : String) (b : ScriptBuilder) → (fail message b).error ≡ latch b.error (some message)
unfolding fail
fail-error message b = go b.error refl
  where
    go :
        (e : Option PhantasmaError)
        → b.error ≡ e
        → (fail message b).error ≡ latch b.error (some message)
    go none e = rw (e, fail)
    go (some found) e = rw (e, fail) e

through-error : (put : Put) (b : ScriptBuilder) → (through put b).error ≡ b.error
unfolding through
through-error put b = go (put b.writer) refl
  where
    go : (answer : Result Writer) → put b.writer ≡ answer → (through put b).error ≡ b.error
    go (ok w) e = rw (e, through)
    go (err f) e = rw (e, through)

pub emit-error : (opcode : Opcode) (b : ScriptBuilder) → (emit opcode b).error ≡ b.error
unfolding emit
emit-error opcode b = through-error (write_u8 (opcode_byte opcode)) b

byte-error : (value : ℕ) (b : ScriptBuilder) → (byte value b).error ≡ b.error
unfolding byte
byte-error value b = through-error (write_u8 value) b

load-error :
    (reg : ℕ) (data_bytes : Bytes) (vm_type : VmType) (b : ScriptBuilder)
    → (emit_load reg data_bytes vm_type b).error
      ≡ latch b.error (refusal (load reg data_bytes vm_type))
unfolding emit_load
load-error reg data_bytes vm_type b = elim (Bool-cases (ltb 0xFFFF (length data_bytes))) [
  | inl e ↦ rw e (fail-error _ b)
  | inr e ↦
      rw (e, latch-none, through-error, through-error, byte-error, byte-error) (emit-error _ b)
]

jump-error :
    (opcode : Opcode) (name : Bytes) (reg : ℕ) (b : ScriptBuilder)
    → (emit_jump opcode name reg b).error ≡ latch b.error (refusal (jump opcode name reg))
unfolding emit_jump reserve_target
jump-error opcode name reg b = elim (Bool-cases (is_jump opcode)) [
  | inl e ↦ elim (Bool-cases (is_jmp opcode)) [
    | inl d ↦ rw (e, d, latch-none, through-error) (emit-error opcode b)
    | inr d ↦ rw (e, d, latch-none, through-error, byte-error) (emit-error opcode b)
  ]
  | inr e ↦ rw e (fail-error _ b)
]

call-error :
    (name : Bytes) (register_count : ℕ) (b : ScriptBuilder)
    → (emit_call name register_count b).error ≡ latch b.error (refusal (call name register_count))
unfolding emit_call reserve_target
call-error name register_count b =
    elim (Bool-cases ((register_count == 0) || ltb max_register_count register_count)) [
      | inl e ↦ rw e (fail-error _ b)
      | inr e ↦ rw (e, latch-none, through-error, byte-error) (emit-error Opcode.call b)
    ]

conditional-error :
    (opcode : Opcode) (reg : ℕ) (name : Bytes) (b : ScriptBuilder)
    → (emit_conditional_jump opcode reg name b).error
      ≡ latch b.error (refusal (conditional opcode reg name))
unfolding emit_conditional_jump
conditional-error opcode reg name b = elim (Bool-cases (is_conditional_jump opcode)) [
  | inl e ↦
      let (known, other) = conditional-is_jump opcode e in
      rw e (
        subst (λ t. (emit_jump opcode name reg b).error ≡ latch b.error t) (rw known)
          (jump-error opcode name reg b))
  | inr e ↦ rw e (fail-error _ b)
]

perform-error :
    (i : Instruction) (b : ScriptBuilder) → (perform i b).error ≡ latch b.error (refusal i)
unfolding emit_raw emit_var_bytes emit_label
perform-error (refuse message) b = fail-error message b
perform-error (operand value) b = rw latch-none (byte-error value b)
perform-error (operation opcode) b = rw latch-none (emit-error opcode b)
perform-error (plain bytes) b = rw (latch-none, through-error)
perform-error (load reg bytes vm_type) b = load-error reg bytes vm_type b
perform-error (label name) b = rw latch-none (emit-error Opcode.nop b)
perform-error (jump opcode name reg) b = jump-error opcode name reg b
perform-error (conditional opcode reg name) b = conditional-error opcode reg name b
perform-error (call name count) b = call-error name count b
perform-error (var_uint value) b = rw (latch-none, through-error)

latch_twice :
    (error : Option PhantasmaError) (message : Option String) (is : List Instruction)
    → latch (latch error message) (first_refusal is)
      ≡ latch error (elim message [ some m ↦ some m | none ↦ first_refusal is ])
latch_twice none none is = refl
latch_twice none (some m) is = refl
latch_twice (some e) none is = refl
latch_twice (some e) (some m) is = refl

pub run-error :
    (is : List Instruction) (b : ScriptBuilder)
    → (run is b).error ≡ latch b.error (first_refusal is)
run-error [] b = sym (latch-none b.error)
run-error (i ∷ is) b =
    run-error is (perform i b)
    ∙ ap (λ e. latch e (first_refusal is)) (perform-error i b)
    ∙ latch_twice b.error (refusal i) is
