-- ===== src/Vm/Script/Targets.antt =====
-- The bytes that src/vm.rs leaves open for a jump or a call: their places ascend, so that the maps
-- grow at their ends.
use phantasma_sdk_rs.Prelude.{
  ℕ, ◌+◌, ◌≤◌, ◌<◌, ◌≡◌, refl, ap, arith, List, [], ◌∷◌, ◌++◌, true, false, ltb, ◌==◌, length,
  length-append, All, append-nil,
}
use phantasma_sdk_rs.Stream.{Bytes, le_bytes, write}
use phantasma_sdk_rs.Binary.{write_u16_le}
use phantasma_sdk_rs.Vm.Script.{
  ScriptBuilder, JumpLocations, insert_location, insert_offset, current_size, through,
  reserve_target,
}
use phantasma_sdk_rs.Vm.Script.Pieces.{
  Pieces, raw, mark, target, blank, targets_of, calls_of, blank-append, last_mark-append,
  targets_of-append, calls_of-append,
}
use phantasma_sdk_rs.Vm.Script.Refines.{Refines, from_zero}

-- The keys of a map that lie below a place.
abbrev pub KeysBelow : ℕ → JumpLocations → Type 0
KeysBelow place [] = Unit
KeysBelow place ((k, v) ∷ locations) = (k < place) × KeysBelow place locations

insert_location_last :
    (place : ℕ) (label : Bytes) (locations : JumpLocations)
    → KeysBelow place locations
    → insert_location place label locations ≡ locations ++ (place, label) ∷ []
unfolding insert_location
insert_location_last place label [] h = refl
insert_location_last place label ((k, v) ∷ locations) (h, hs) =
    let above : ltb place k ≡ false = ground arith in
    let other : (place == k) ≡ false = ground arith in
    rw (above, other) (ap (λ t. (k, v) ∷ t) (insert_location_last place label locations hs))

insert_offset_last :
    (place : ℕ) (offsets : List ℕ)
    → All (λ k. k < place) offsets
    → insert_offset place offsets ≡ offsets ++ place ∷ []
unfolding insert_offset
insert_offset_last place [] h = refl
insert_offset_last place (k ∷ offsets) (h, hs) =
    let above : ltb place k ≡ false = ground arith in
    let other : (place == k) ≡ false = ground arith in
    rw (above, other) (ap (λ t. k ∷ t) (insert_offset_last place offsets hs))

targets_of-KeysBelow :
    (place bound : ℕ) (pieces : Pieces)
    → place + length (blank pieces) ≤ bound
    → KeysBelow bound (targets_of place pieces)
targets_of-KeysBelow place bound [] h = tt
targets_of-KeysBelow place bound (raw bytes ∷ pieces) h =
    targets_of-KeysBelow (place + length bytes) bound pieces
      (omega (arith, length-append bytes (blank pieces)))
targets_of-KeysBelow place bound (mark label ∷ pieces) h = targets_of-KeysBelow place bound pieces h
targets_of-KeysBelow place bound (target label is_call ∷ pieces) h =
    (omega arith, targets_of-KeysBelow (place + 2) bound pieces (omega arith))

calls_of-below :
    (place bound : ℕ) (pieces : Pieces)
    → place + length (blank pieces) ≤ bound
    → All (λ k. k < bound) (calls_of place pieces)
calls_of-below place bound [] h = tt
calls_of-below place bound (raw bytes ∷ pieces) h =
    calls_of-below (place + length bytes) bound pieces
      (omega (arith, length-append bytes (blank pieces)))
calls_of-below place bound (mark label ∷ pieces) h = calls_of-below place bound pieces h
calls_of-below place bound (target label true ∷ pieces) h =
    (omega arith, calls_of-below (place + 2) bound pieces (omega arith))
calls_of-below place bound (target label false ∷ pieces) h =
    calls_of-below (place + 2) bound pieces (omega arith)

-- Two zero bytes and the place of a label behind the other places.
reserve_target_writes :
    (label : Bytes) (pieces : Pieces) (b : ScriptBuilder)
    → Refines pieces b
    → reserve_target label b ≡ record b {
      writer = record { buffer = blank pieces ++ 0 ∷ 0 ∷ [] };
      jump_locations = targets_of 0 pieces ++ (length (blank pieces), label) ∷ [];
    }
unfolding reserve_target current_size write_u16_le le_bytes write through
reserve_target_writes label pieces b r =
    let behind : KeysBelow (length (blank pieces)) (targets_of 0 pieces) =
      targets_of-KeysBelow 0 _ pieces (omega arith) in
    rw (
      r.buffer,
      r.targets,
      insert_location_last (length (blank pieces)) label (targets_of 0 pieces) behind,
    )

pub reserve_target-Refines :
    (label : Bytes) (pieces : Pieces) (b : ScriptBuilder)
    → Refines pieces b
    → Refines (pieces ++ target label false ∷ []) (reserve_target label b)
reserve_target-Refines label pieces b r = rw (reserve_target_writes label pieces b r) (record {
  buffer = rw blank-append;
  targets = rw (targets_of-append, from_zero);
  calls = rw (calls_of-append, append-nil) r.calls;
  labels = λ key. rw last_mark-append (r.labels key);
})

pub reserve_call-Refines :
    (label : Bytes) (pieces : Pieces) (b : ScriptBuilder)
    → Refines pieces b
    → Refines (pieces ++ target label true ∷ []) (record (reserve_target label b) {
      call_offsets = insert_offset (current_size b) (reserve_target label b).call_offsets;
    })
unfolding current_size
reserve_call-Refines label pieces b r =
    let behind = calls_of-below 0 (length (blank pieces)) pieces (omega arith) in
    rw (reserve_target_writes label pieces b r) (record {
      buffer = rw blank-append;
      targets = rw (targets_of-append, from_zero);
      calls =
          rw (calls_of-append, r.buffer, r.calls, from_zero)
            (insert_offset_last (length (blank pieces)) (calls_of 0 pieces) behind);
      labels = λ key. rw last_mark-append (r.labels key);
    })
