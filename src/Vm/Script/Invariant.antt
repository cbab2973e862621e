-- ===== src/Vm/Script/Invariant.antt =====
-- What holds of every builder of src/vm.rs that its methods can make.
use phantasma_sdk_rs.Prelude.{
  ℕ, ◌+◌, ◌≤◌, ◌≡◌, refl, arith, [], ◌∷◌, Bool, true, false, ◌==◌, ◌||◌, Option, none, some, length,
  length-append, All, list_eq, if◌then◌else◌, All-map,
}
use phantasma_sdk_rs.Stream.{Bytes}
use phantasma_sdk_rs.Text.Ascii.{to_ascii_lowercase}
use phantasma_sdk_rs.Vm.Script.{
  ScriptBuilder, JumpLocations, new_builder, label_at, current_size, end_script,
}
use phantasma_sdk_rs.Vm.Script.Pieces.{
  Pieces, raw, mark, target, blank, last_mark, targets_of, calls_of,
}
use phantasma_sdk_rs.Vm.Script.Refines.{Refines, new_builder-Refines}
use phantasma_sdk_rs.Vm.Script.Instructions.{Instruction, perform}
use phantasma_sdk_rs.Vm.Script.Laws.{perform-Refines}
use phantasma_sdk_rs.Vm.Script.End.{end_script-Refines}

-- From `low` on, every location has two bytes of its own, in ascending order, below `size`.
abbrev pub Spaced : ℕ → JumpLocations → ℕ → Type 0
Spaced low [] size = low ≤ size
Spaced low ((place, label) ∷ locations) size = (low ≤ place) × Spaced (place + 2) locations size

abbrev pub has_location : ℕ → JumpLocations → Bool
has_location key [] = false
has_location key ((place, label) ∷ locations) =
    let rest = has_location key locations in (key == place) || rest

abbrev pub AtMost : ℕ → Option ℕ → Type 0
AtMost size none = Unit
AtMost size (some place) = place ≤ size

-- The bytes that are left open do not overlap and lie in the buffer, no label lies beyond it, and
-- every offset of a call is one of a target.
pub record WellFormed (b : ScriptBuilder) : Type 0 where
  pub slots : Spaced 0 b.jump_locations (current_size b)
  pub labels : (label : Bytes) → AtMost (current_size b) (label_at label b.label_locations)
  pub calls : All (λ offset. has_location offset b.jump_locations ≡ true) b.call_offsets

Spaced-lower :
    (low place size : ℕ) (locations : JumpLocations)
    → low ≤ place
    → Spaced place locations size
    → Spaced low locations size
Spaced-lower low place size [] h k = omega arith
Spaced-lower low place size ((offset, label) ∷ locations) h (k, ks) = (omega arith, ks)

targets_of-Spaced :
    (place size : ℕ) (pieces : Pieces)
    → place + length (blank pieces) ≤ size
    → Spaced place (targets_of place pieces) size
targets_of-Spaced place size [] h = omega arith
targets_of-Spaced place size (raw bytes ∷ pieces) h =
    Spaced-lower place (place + length bytes) size (targets_of (place + length bytes) pieces)
      (omega arith)
      (targets_of-Spaced (place + length bytes) size pieces
        (omega (arith, length-append bytes (blank pieces))))
targets_of-Spaced place size (mark label ∷ pieces) h = targets_of-Spaced place size pieces h
targets_of-Spaced place size (target label is_call ∷ pieces) h =
    (omega arith, targets_of-Spaced (place + 2) size pieces (omega arith))

last_mark-AtMost :
    (key : Bytes) (place size : ℕ) (pieces : Pieces) (found : Option ℕ)
    → place + length (blank pieces) ≤ size
    → AtMost size found
    → AtMost size (last_mark key place pieces found)
last_mark-AtMost key place size [] found h k = k
last_mark-AtMost key place size (raw bytes ∷ pieces) found h k =
    last_mark-AtMost key (place + length bytes) size pieces found
      (omega (arith, length-append bytes (blank pieces))) k
last_mark-AtMost key place size (mark label ∷ pieces) found h k =
    last_mark-AtMost key place size pieces _ h
      (either (list_eq key (to_ascii_lowercase label)) found k (omega arith))
  where
    either :
        (test : Bool) (found : Option ℕ)
        → AtMost size found
        → place ≤ size
        → AtMost size (if test then some place else found)
    either true found k small = small
    either false found k small = k
last_mark-AtMost key place size (target label is_call ∷ pieces) found h k =
    last_mark-AtMost key (place + 2) size pieces found (omega arith) k

or_true : (first second : Bool) → second ≡ true → (first || second) ≡ true
or_true true second h = refl
or_true false second h = h

calls_of-located :
    (place : ℕ) (pieces : Pieces)
    → All (λ offset. has_location offset (targets_of place pieces) ≡ true) (calls_of place pieces)
calls_of-located place [] = tt
calls_of-located place (raw bytes ∷ pieces) = calls_of-located (place + length bytes) pieces
calls_of-located place (mark label ∷ pieces) = calls_of-located place pieces
calls_of-located place (target label true ∷ pieces) =
    let here : (place == place) ≡ true = ground arith in
    let rest = calls_of-located (place + 2) pieces in
    (rw here, All-map (λ offset known. or_true (offset == place) _ known) _ rest)
calls_of-located place (target label false ∷ pieces) =
    All-map (λ offset known. or_true (offset == place) _ known) _
      (calls_of-located (place + 2) pieces)

Refines-WellFormed : (pieces : Pieces) (b : ScriptBuilder) → Refines pieces b → WellFormed b
unfolding current_size
Refines-WellFormed pieces b r = record {
  slots = rw (r.buffer, r.targets) (targets_of-Spaced 0 _ pieces (omega arith));
  labels = λ label.
      rw (r.buffer, r.labels label) (last_mark-AtMost label 0 _ pieces none (omega arith) tt);
  calls = rw (r.targets, r.calls) (calls_of-located 0 pieces);
}

-- The builders that the methods make of a new one, in any order; the end of a script can be taken
-- more than once.
pub data Reachable : ScriptBuilder → Type 0 where
  new : Reachable new_builder
  performed : {b : ScriptBuilder} (i : Instruction) → Reachable b → Reachable (perform i b)
  ended : {b : ScriptBuilder} → Reachable b → Reachable (end_script b).1

Reachable-Refines : (b : ScriptBuilder) → Reachable b → (pieces : Pieces) × Refines pieces b
Reachable-Refines _ new = ([], new_builder-Refines)
Reachable-Refines _ (performed i r) =
    let (pieces, h) = Reachable-Refines _ r in (_, perform-Refines i pieces _ h)
Reachable-Refines _ (ended r) =
    let (pieces, h) = Reachable-Refines _ r in (_, end_script-Refines pieces _ h)

-- Every builder that the methods make of a new one is well formed, whatever was refused or ended
-- before.
pub Reachable-WellFormed : (b : ScriptBuilder) → Reachable b → WellFormed b
Reachable-WellFormed b r = let (pieces, h) = Reachable-Refines b r in Refines-WellFormed pieces b h
