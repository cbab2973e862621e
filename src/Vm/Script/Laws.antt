-- ===== src/Vm/Script/Laws.antt =====
-- What the instructions of a ScriptBuilder, src/vm.rs, do to it, and what its script is.
use phantasma_sdk_rs.Prelude.{
  ℕ, ◌≡◌, refl, List, [], ◌∷◌, ◌++◌, append-nil, append_assoc, true, false, ◌||◌, ltb, ◌==◌, length,
  Bool-cases, inl, inr, subst,
}
use phantasma_sdk_rs.Stream.{Bytes, write}
use phantasma_sdk_rs.Binary.{write_u8, write_var_uint}
use phantasma_sdk_rs.Vm.Code.{
  Opcode, opcode_byte, is_jump, is_jmp, is_conditional_jump, VmType, vm_type_byte,
}
use phantasma_sdk_rs.Vm.Script.{
  ScriptBuilder, new_builder, max_register_count, byte, emit, emit_raw, emit_load, emit_label,
  emit_jump, emit_call, emit_conditional_jump, emit_var_bytes, to_script,
}
use phantasma_sdk_rs.Vm.Script.Pieces.{Piece, Pieces, raw, assemble}
use phantasma_sdk_rs.Vm.Script.Refines.{
  Refines, write-Appends, write_var_uint-Appends, through-Refines, fail-Refines, mark-Refines,
  new_builder-Refines,
}
use phantasma_sdk_rs.Vm.Script.Targets.{reserve_target-Refines, reserve_call-Refines}
use phantasma_sdk_rs.Vm.Script.Assembled.{to_script-Refines}
use phantasma_sdk_rs.Vm.Script.Instructions.{
  Instruction, refuse, operand, operation, plain, load, label, jump, conditional, call, var_uint,
  perform, run, refusal, accepted, unless_refused, script_pieces,
}

-- A piece and those behind it, appended in two steps.
Refines-cons :
    (pieces : Pieces) (piece : Piece) (rest : Pieces) (b : ScriptBuilder)
    → Refines (pieces ++ piece ∷ [] ++ rest) b
    → Refines (pieces ++ piece ∷ rest) b
Refines-cons pieces piece rest b r =
    subst (λ ps. Refines ps b) (append_assoc pieces (piece ∷ []) rest) r

byte-Refines :
    (value : ℕ) (pieces : Pieces) (b : ScriptBuilder)
    → Refines pieces b
    → Refines (pieces ++ raw (value ∷ []) ∷ []) (byte value b)
unfolding byte write_u8 write
byte-Refines value pieces b r = through-Refines (write (value ∷ [])) pieces b (write-Appends _) r

pub emit-Refines :
    (opcode : Opcode) (pieces : Pieces) (b : ScriptBuilder)
    → Refines pieces b
    → Refines (pieces ++ raw (opcode_byte opcode ∷ []) ∷ []) (emit opcode b)
unfolding emit write_u8 write
emit-Refines opcode pieces b r = through-Refines (write (_ ∷ [])) pieces b (write-Appends _) r

-- What an instruction makes of the pieces so far.
abbrev pub after : Pieces → Instruction → Pieces
after pieces i = pieces ++ unless_refused (refusal i) (accepted i)

load-Refines :
    (reg : ℕ) (data_bytes : Bytes) (vm_type : VmType) (pieces : Pieces) (b : ScriptBuilder)
    → Refines pieces b
    → Refines (after pieces (load reg data_bytes vm_type)) (emit_load reg data_bytes vm_type b)
unfolding emit_load write
load-Refines reg data_bytes vm_type pieces b r =
    elim (Bool-cases (ltb 0xFFFF (length data_bytes))) [
      | inl e ↦ rw (e, append-nil) (fail-Refines _ pieces b r)
      | inr e ↦
          let head =
            byte-Refines (vm_type_byte vm_type) _ _
              (byte-Refines reg _ _ (emit-Refines Opcode.load pieces b r)) in
          let size =
            through-Refines (write_var_uint (length data_bytes)) _ _
              (write_var_uint-Appends (length data_bytes)) head in
          let body = through-Refines (write data_bytes) _ _ (write-Appends data_bytes) size in
          rw e (
            Refines-cons pieces _ _ _
              (Refines-cons _ _ _ _ (Refines-cons _ _ _ _ (Refines-cons _ _ _ _ body))))
    ]

jump-Refines :
    (opcode : Opcode) (name : Bytes) (reg : ℕ) (pieces : Pieces) (b : ScriptBuilder)
    → Refines pieces b
    → Refines (after pieces (jump opcode name reg)) (emit_jump opcode name reg b)
unfolding emit_jump
jump-Refines opcode name reg pieces b r =
    let head = emit-Refines opcode pieces b r in
    elim (Bool-cases (is_jump opcode)) [
      | inl e ↦ rw e (elim (Bool-cases (is_jmp opcode)) [
        | inl d ↦ rw d (Refines-cons pieces _ _ _ (reserve_target-Refines name _ _ head))
        | inr d ↦
            let slot = reserve_target-Refines name _ _ (byte-Refines reg _ _ head) in
            rw d (Refines-cons pieces _ _ _ (Refines-cons _ _ _ _ slot))
      ])
      | inr e ↦ rw (e, append-nil) (fail-Refines _ pieces b r)
    ]

pub conditional-is_jump :
    (opcode : Opcode)
    → is_conditional_jump opcode ≡ true
    → (is_jump opcode ≡ true) × (is_jmp opcode ≡ false)
unfolding is_jump is_conditional_jump is_jmp
conditional-is_jump Opcode.jmp_if e = (refl, refl)
conditional-is_jump Opcode.jmp_not e = (refl, refl)
conditional-is_jump _ e = absurd cc

conditional-Refines :
    (opcode : Opcode) (reg : ℕ) (name : Bytes) (pieces : Pieces) (b : ScriptBuilder)
    → Refines pieces b
    → Refines (after pieces (conditional opcode reg name)) (emit_conditional_jump opcode reg name b)
unfolding emit_conditional_jump
conditional-Refines opcode reg name pieces b r = elim (Bool-cases (is_conditional_jump opcode)) [
  | inl e ↦
      let (known, other) = conditional-is_jump opcode e in
      let whole = jump-Refines opcode name reg pieces b r in
      rw e
        (subst (λ t. Refines (pieces ++ t) (emit_jump opcode name reg b)) (rw (known, other)) whole)
  | inr e ↦ rw (e, append-nil) (fail-Refines _ pieces b r)
]

call-Refines :
    (name : Bytes) (register_count : ℕ) (pieces : Pieces) (b : ScriptBuilder)
    → Refines pieces b
    → Refines (after pieces (call name register_count)) (emit_call name register_count b)
unfolding emit_call
call-Refines name register_count pieces b r =
    elim (Bool-cases ((register_count == 0) || ltb max_register_count register_count)) [
      | inl e ↦ rw (e, append-nil) (fail-Refines _ pieces b r)
      | inr e ↦
          let head = byte-Refines register_count _ _ (emit-Refines Opcode.call pieces b r) in
          rw e
            (Refines-cons pieces _ _ _ (Refines-cons _ _ _ _ (reserve_call-Refines name _ _ head)))
    ]

label-Refines :
    (name : Bytes) (pieces : Pieces) (b : ScriptBuilder)
    → Refines pieces b
    → Refines (after pieces (label name)) (emit_label name b)
unfolding emit_label
label-Refines name pieces b r =
    Refines-cons pieces _ _ _ (mark-Refines name _ _ (emit-Refines Opcode.nop pieces b r))

pub perform-Refines :
    (i : Instruction) (pieces : Pieces) (b : ScriptBuilder)
    → Refines pieces b
    → Refines (after pieces i) (perform i b)
unfolding emit_raw emit_var_bytes write
perform-Refines (refuse message) pieces b r = rw append-nil (fail-Refines message pieces b r)
perform-Refines (operand value) pieces b r = byte-Refines value pieces b r
perform-Refines (operation opcode) pieces b r = emit-Refines opcode pieces b r
perform-Refines (plain bytes) pieces b r =
    through-Refines (write bytes) pieces b (write-Appends bytes) r
perform-Refines (load reg bytes vm_type) pieces b r = load-Refines reg bytes vm_type pieces b r
perform-Refines (label name) pieces b r = label-Refines name pieces b r
perform-Refines (jump opcode name reg) pieces b r = jump-Refines opcode name reg pieces b r
perform-Refines (conditional opcode reg name) pieces b r =
    conditional-Refines opcode reg name pieces b r
perform-Refines (call name count) pieces b r = call-Refines name count pieces b r
perform-Refines (var_uint value) pieces b r =
    through-Refines (write_var_uint value) pieces b (write_var_uint-Appends value) r

pub run-Refines :
    (is : List Instruction) (pieces : Pieces) (b : ScriptBuilder)
    → Refines pieces b
    → Refines (pieces ++ script_pieces is) (run is b)
run-Refines [] pieces b r = rw append-nil r
run-Refines (i ∷ is) pieces b r =
    subst (λ ps. Refines ps (run is (perform i b)))
      (append_assoc pieces (unless_refused (refusal i) (accepted i)) (script_pieces is))
      (run-Refines is (after pieces i) (perform i b) (perform-Refines i pieces b r))

-- The script of a builder that was given instructions is what the assembler makes of their pieces:
-- the same bytes with the place of its label in every target, or the same error.
pub to_script-run :
    (is : List Instruction) → to_script (run is new_builder) ≡ assemble (script_pieces is)
to_script-run is = to_script-Refines _ _ (run-Refines is [] new_builder new_builder-Refines)
