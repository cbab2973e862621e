-- ===== src/Vm/Script/Instructions.antt =====
-- The methods of ScriptBuilder, src/vm.rs, that write something themselves, as a list of instructions
-- that can be run and described.
use phantasma_sdk_rs.Prelude.{
  ℕ, List, [], ◌∷◌, ◌++◌, true, false, ◌||◌, ltb, ◌==◌, if◌then◌else◌, Option, none, some, length,
  String,
}
use phantasma_sdk_rs.Stream.{Bytes}
use phantasma_sdk_rs.Binary.{write_var_uint}
use phantasma_sdk_rs.Vm.Code.{
  Opcode, opcode_byte, is_jump, is_jmp, is_conditional_jump, VmType, vm_type_byte,
}
use phantasma_sdk_rs.Vm.Script.{
  ScriptBuilder, max_register_count, fail, byte, emit, emit_raw, emit_load, emit_label, emit_jump,
  emit_call, emit_conditional_jump, emit_var_bytes,
}
use phantasma_sdk_rs.Vm.Script.Pieces.{Pieces, raw, mark, target}
use phantasma_sdk_rs.Vm.Script.Refines.{written}

pub data Instruction : Type 0 where
  refuse : String → Instruction
  operand : ℕ → Instruction
  operation : Opcode → Instruction
  plain : Bytes → Instruction
  load : ℕ → Bytes → VmType → Instruction
  label : Bytes → Instruction
  jump : Opcode → Bytes → ℕ → Instruction
  conditional : Opcode → ℕ → Bytes → Instruction
  call : Bytes → ℕ → Instruction
  var_uint : ℕ → Instruction

abbrev pub perform : Instruction → ScriptBuilder → ScriptBuilder
perform (refuse message) = fail message
perform (operand value) = byte value
perform (operation opcode) = emit opcode
perform (plain data_bytes) = emit_raw data_bytes
perform (load reg data_bytes vm_type) = emit_load reg data_bytes vm_type
perform (label name) = emit_label name
perform (jump opcode name reg) = emit_jump opcode name reg
perform (conditional opcode reg name) = emit_conditional_jump opcode reg name
perform (call name register_count) = emit_call name register_count
perform (var_uint value) = emit_var_bytes value

abbrev pub run : List Instruction → ScriptBuilder → ScriptBuilder
run [] b = b
run (i ∷ is) b = run is (perform i b)

-- Why an instruction is refused, if it is.
abbrev pub refusal : Instruction → Option String
refusal (refuse message) = some message
refusal (load reg data_bytes vm_type) =
    if ltb 0xFFFF (length data_bytes) then some "tried to load too much data" else none
refusal (jump opcode name reg) = if is_jump opcode then none else some "invalid jump opcode"
refusal (conditional opcode reg name) =
    if is_conditional_jump opcode then none else some "invalid conditional jump opcode"
refusal (call name register_count) =
    if (register_count == 0) || ltb max_register_count register_count
    then some "invalid number of registers"
    else none
refusal _ = none

abbrev pub first_refusal : List Instruction → Option String
first_refusal [] = none
first_refusal (i ∷ is) = elim (refusal i) [ some message ↦ some message | none ↦ first_refusal is ]

-- The pieces of an instruction that is not refused.
abbrev pub accepted : Instruction → Pieces
accepted (refuse message) = []
accepted (operand value) = raw (value ∷ []) ∷ []
accepted (operation opcode) = raw (opcode_byte opcode ∷ []) ∷ []
accepted (plain data_bytes) = raw data_bytes ∷ []
accepted (load reg data_bytes vm_type) =
    raw (opcode_byte Opcode.load ∷ [])
    ∷ raw (reg ∷ [])
    ∷ raw (vm_type_byte vm_type ∷ [])
    ∷ raw (written (write_var_uint (length data_bytes)))
    ∷ raw data_bytes
    ∷ []
accepted (label name) = raw (opcode_byte Opcode.nop ∷ []) ∷ mark name ∷ []
accepted (jump opcode name reg) =
    if is_jmp opcode
    then raw (opcode_byte opcode ∷ []) ∷ target name false ∷ []
    else raw (opcode_byte opcode ∷ []) ∷ raw (reg ∷ []) ∷ target name false ∷ []
accepted (conditional opcode reg name) =
    raw (opcode_byte opcode ∷ []) ∷ raw (reg ∷ []) ∷ target name false ∷ []
accepted (call name register_count) =
    raw (opcode_byte Opcode.call ∷ []) ∷ raw (register_count ∷ []) ∷ target name true ∷ []
accepted (var_uint value) = raw (written (write_var_uint value)) ∷ []

abbrev pub unless_refused : Option String → Pieces → Pieces
unless_refused none pieces = pieces
unless_refused (some message) pieces = []

abbrev pub script_pieces : List Instruction → Pieces
script_pieces [] = []
script_pieces (i ∷ is) = unless_refused (refusal i) (accepted i) ++ script_pieces is
