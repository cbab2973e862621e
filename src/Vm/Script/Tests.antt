-- ===== src/Vm/Script/Tests.antt =====
-- The theorems on scripts of src/vm.rs at a script with a loop, a call and a refused load.
use phantasma_sdk_rs.Prelude.{◌≡◌, refl, pos, List, [], ◌∷◌, ◌++◌}
use phantasma_sdk_rs.Error.{err, builder}
use phantasma_sdk_rs.Text.Ascii.{ascii}
use phantasma_sdk_rs.BigInt.Model.{model}
use phantasma_sdk_rs.Vm.Code.{Opcode}
use phantasma_sdk_rs.Vm.Script.{ScriptBuilder, new_builder, to_script, end_script}
use phantasma_sdk_rs.Vm.Script.Pieces.{assemble}
use phantasma_sdk_rs.Vm.Script.Instructions.{
  Instruction, operation, operand, label, jump, call, perform, run, script_pieces,
}
use phantasma_sdk_rs.Vm.Script.Calls.{
  ScriptArgs, number, text, array, arg, no_args, call_interop, call_contract,
}
use phantasma_sdk_rs.Vm.Script.Calls.Laws.{interop_call, contract_call, call_interop-call_contract}
use phantasma_sdk_rs.Vm.Script.Laws.{to_script-run}
use phantasma_sdk_rs.Vm.Script.End.{ret_piece, end_script-run, end_script-end_script}
use phantasma_sdk_rs.Vm.Script.Invariant.{new, performed, ended, WellFormed, Reachable-WellFormed}

-- A loop whose label is written in another case than the jump names it, and a call.
abbrev loop : List Instruction
loop =
    label (ascii "Start")
    ∷ operation Opcode.inc
    ∷ operand 1
    ∷ jump Opcode.jmp_if (ascii "start") 1
    ∷ call (ascii "START") 4
    ∷ []

abbrev refused : List Instruction
refused = operation Opcode.nop ∷ call (ascii "start") 33 ∷ jump Opcode.add (ascii "start") 0 ∷ []

to_script-run_example : to_script (run loop new_builder) ≡ assemble (script_pieces loop)
to_script-run_example = to_script-run loop

end_script-run_example :
    (end_script (run refused new_builder)).0 ≡ err (builder "invalid number of registers")
end_script-run_example = end_script-run refused

end_script-end_script_example :
    ((end_script (run refused new_builder)).0 ≡ err (builder "invalid number of registers"))
    × ((end_script (end_script (run refused new_builder)).1).0
        ≡ assemble (script_pieces refused ++ ret_piece ++ ret_piece))
end_script-end_script_example = end_script-end_script refused "invalid number of registers" refl

abbrev ended_once : ScriptBuilder
ended_once = (end_script (perform (call (ascii "start") 4) new_builder)).1

Reachable-WellFormed_example : WellFormed (perform (label (ascii "start")) ended_once)
Reachable-WellFormed_example =
    Reachable-WellFormed (perform (label (ascii "start")) ended_once)
      (performed (label (ascii "start")) (ended (performed (call (ascii "start") 4) new)))

abbrev two_args : ScriptArgs
two_args =
    arg (array (arg (number (pos 5)) (arg (text (ascii "x")) no_args)))
      (arg (text (ascii "y")) no_args)

call_interop-call_contract_example :
    (call_interop (ascii "Burn") two_args new_builder
      ≡ run (interop_call (ascii "Burn") two_args) new_builder)
    × (call_contract (ascii "stake") (ascii "Burn") two_args new_builder
        ≡ run (contract_call (ascii "stake") (ascii "Burn") two_args) new_builder)
call_interop-call_contract_example =
    call_interop-call_contract (ascii "stake") (ascii "Burn") two_args new_builder
