-- ===== src/Vm/Script/End.antt =====
-- The end of a script of src/vm.rs: what it answers, and what it leaves of the builder.
use phantasma_sdk_rs.Prelude.{◌≡◌, refl, ap, ◌∙◌, List, [], ◌∷◌, ◌++◌, Option, none, some, String}
use phantasma_sdk_rs.Error.{PhantasmaError, Result, ok, err, builder}
use phantasma_sdk_rs.Stream.{Bytes}
use phantasma_sdk_rs.Vm.Code.{Opcode, opcode_byte}
use phantasma_sdk_rs.Vm.Script.{
  ScriptBuilder, new_builder, emit, to_script, end_script, end_script_with_error, end_with,
  script_or_error,
}
use phantasma_sdk_rs.Vm.Script.Pieces.{Pieces, raw, assemble}
use phantasma_sdk_rs.Vm.Script.Refines.{Refines, error-Refines, new_builder-Refines}
use phantasma_sdk_rs.Vm.Script.Assembled.{to_script-Refines}
use phantasma_sdk_rs.Vm.Script.Instructions.{Instruction, run, first_refusal, script_pieces}
use phantasma_sdk_rs.Vm.Script.Laws.{emit-Refines, run-Refines}
use phantasma_sdk_rs.Vm.Script.Errors.{latch, run-error, emit-error}

end_script_failed :
    (b : ScriptBuilder) (e : PhantasmaError)
    → b.error ≡ some e
    → end_script b ≡ (err e, record (emit Opcode.ret b) { error = none })
unfolding end_script end_script_with_error
end_script_failed b e h =
    ap
      (λ error.
        let ((script, answer), after) = end_with error (emit Opcode.ret b) in
        (elim answer [ some f ↦ err f | none ↦ ok script ], after))
      (emit-error Opcode.ret b ∙ h)

end_script_clean :
    (b : ScriptBuilder)
    → b.error ≡ none
    → end_script b ≡ (to_script (emit Opcode.ret b), emit Opcode.ret b)
unfolding end_script end_script_with_error end_with script_or_error
end_script_clean b h =
    ap (λ error. split (end_with error (emit Opcode.ret b))) (emit-error Opcode.ret b ∙ h)
    ∙ go (to_script (emit Opcode.ret b))
  where
    split : (Bytes × Option PhantasmaError) × ScriptBuilder → Result Bytes × ScriptBuilder
    split ((script, answer), after) = (elim answer [ some f ↦ err f | none ↦ ok script ], after)

    go :
        (answer : Result Bytes)
        → split (script_or_error answer, emit Opcode.ret b) ≡ (answer, emit Opcode.ret b)
    go (ok script) = refl
    go (err e) = refl

-- The end of a script gives the builder one more byte, and may take its error away.
pub end_script-Refines :
    (pieces : Pieces) (b : ScriptBuilder)
    → Refines pieces b
    → Refines (pieces ++ raw (opcode_byte Opcode.ret ∷ []) ∷ []) (end_script b).1
end_script-Refines pieces b r = go b.error refl
  where
    go :
        (error : Option PhantasmaError)
        → b.error ≡ error
        → Refines (pieces ++ raw (opcode_byte Opcode.ret ∷ []) ∷ []) (end_script b).1
    go (some e) h =
        rw (end_script_failed b e h) (error-Refines _ _ none (emit-Refines Opcode.ret pieces b r))
    go none h = rw (end_script_clean b h) (emit-Refines Opcode.ret pieces b r)

abbrev pub ret_piece : Pieces
ret_piece = raw (opcode_byte Opcode.ret ∷ []) ∷ []

run-new_builder : (is : List Instruction) → Refines (script_pieces is) (run is new_builder)
run-new_builder is = run-Refines is [] new_builder new_builder-Refines

first_error :
    (is : List Instruction) (found : Option String)
    → first_refusal is ≡ found
    → (run is new_builder).error ≡ latch none found
unfolding new_builder
first_error is found h = run-error is new_builder ∙ ap (latch none) h

end_clean :
    (pieces : Pieces) (b : ScriptBuilder)
    → Refines pieces b
    → b.error ≡ none
    → (end_script b).0 ≡ assemble (pieces ++ ret_piece)
end_clean pieces b r h =
    ap (λ t. t.0) (end_script_clean b h)
    ∙ to_script-Refines (pieces ++ ret_piece) (emit Opcode.ret b)
        (emit-Refines Opcode.ret pieces b r)

-- The end of a script answers the error of the first instruction that was refused; when none was, it
-- answers what the assembler makes of the pieces and a return behind them.
pub end_script-run :
    (is : List Instruction)
    → (end_script (run is new_builder)).0 ≡ elim (first_refusal is) [
      | some message ↦ err (builder message)
      | none ↦ assemble (script_pieces is ++ ret_piece)
    ]
end_script-run is = go (first_refusal is) refl
  where
    go :
        (found : Option String)
        → first_refusal is ≡ found
        → (end_script (run is new_builder)).0 ≡ elim found [
          | some message ↦ err (builder message)
          | none ↦ assemble (script_pieces is ++ ret_piece)
        ]
    go none h = end_clean _ _ (run-new_builder is) (first_error is none h)
    go (some message) h =
        ap (λ t. t.0) (end_script_failed _ (builder message) (first_error is (some message) h))

-- After an instruction was refused, the first end of a script answers its error and a second end
-- answers a script: what the assembler makes of the accepted pieces and two returns.
pub end_script-end_script :
    (is : List Instruction) (message : String)
    → first_refusal is ≡ some message
    → ((end_script (run is new_builder)).0 ≡ err (builder message))
      × ((end_script (end_script (run is new_builder)).1).0
          ≡ assemble (script_pieces is ++ ret_piece ++ ret_piece))
end_script-end_script is message h =
    let failed = end_script_failed _ (builder message) (first_error is (some message) h) in
    (
      ap (λ t. t.0) failed,
      end_clean _ _ (end_script-Refines _ _ (run-new_builder is)) (ap (λ t. t.1.error) failed),
    )
