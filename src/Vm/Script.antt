-- ===== src/Vm/Script.antt =====
-- ScriptBuilder of src/vm.rs: the bytes written so far, the places that jumps and calls left open,
-- the labels, and the first error. A method takes the builder last, so that `b ▷ method` reads like
-- the chains of the source.
pub mod Calls
pub mod Transfers
pub mod Pieces
pub mod Refines
pub mod Targets
pub mod Assembled
pub mod Instructions
pub mod Laws
pub mod Errors
pub mod End
pub mod Invariant
mod Tests
use phantasma_sdk_rs.Prelude.{
  ℕ, ◌+◌, ◌%◌, ◌^◌, List, [], ◌∷◌, ◌++◌, Bool, false, not, ◌||◌, ltb, leb, ◌==◌, if◌then◌else◌,
  Option, none, some, length, take, drop, list_eq, String,
}
use phantasma_sdk_rs.Error.{PhantasmaError, Result, ok, err, builder, ◌>>=◌}
use phantasma_sdk_rs.Stream.{Bytes, Writer, Put, new_writer, write, le_bytes}
use phantasma_sdk_rs.Binary.{write_u8, write_u16_le, write_var_uint}
use phantasma_sdk_rs.Text.Ascii.{to_ascii_lowercase}
use phantasma_sdk_rs.Vm.Code.{
  Opcode, opcode_byte, is_jump, is_jmp, is_conditional_jump, VmType, vm_type_byte,
}

-- The maps of the source, by offset and by label.
abbrev pub JumpLocations : Type 0
JumpLocations = List (ℕ × Bytes)

abbrev pub LabelLocations : Type 0
LabelLocations = List (Bytes × ℕ)

pub record ScriptBuilder : Type 0 where
  pub writer : Writer
  pub jump_locations : JumpLocations
  pub label_locations : LabelLocations
  pub call_offsets : List ℕ
  pub error : Option PhantasmaError

abbrev pub max_register_count : ℕ
max_register_count = 32

abbrev pub max_jump_target : ℕ
max_jump_target = 0x7FFF

abbrev pub max_call_target : ℕ
max_call_target = 0xFFFF

unfoldable pub new_builder : ScriptBuilder
unfolding new_writer
new_builder = record {
  writer = new_writer;
  jump_locations = [];
  label_locations = [];
  call_offsets = [];
  error = none;
}

-- `BTreeMap<usize, String>::insert`: the keys ascend.
unfoldable pub insert_location : ℕ → Bytes → JumpLocations → JumpLocations
insert_location key value [] = (key, value) ∷ []
insert_location key value ((k, v) ∷ locations) =
    let rest = insert_location key value locations in
    if ltb key k
    then (key, value) ∷ (k, v) ∷ locations
    else if key == k
    then (key, value) ∷ locations
    else (k, v) ∷ rest

-- `BTreeSet<usize>::insert` and `contains`.
unfoldable pub insert_offset : ℕ → List ℕ → List ℕ
insert_offset key [] = key ∷ []
insert_offset key (k ∷ offsets) =
    let rest = insert_offset key offsets in
    if ltb key k then key ∷ k ∷ offsets else if key == k then k ∷ offsets else k ∷ rest

unfoldable pub has_offset : ℕ → List ℕ → Bool
has_offset key [] = false
has_offset key (k ∷ offsets) = let rest = has_offset key offsets in (key == k) || rest

-- `BTreeMap<String, usize>::insert` and `get`; nothing reads the labels in order.
unfoldable pub insert_label : Bytes → ℕ → LabelLocations → LabelLocations
insert_label key value [] = (key, value) ∷ []
insert_label key value ((k, v) ∷ locations) =
    let rest = insert_label key value locations in
    if list_eq key k then (key, value) ∷ locations else (k, v) ∷ rest

unfoldable pub label_at : Bytes → LabelLocations → Option ℕ
label_at key [] = none
label_at key ((k, v) ∷ locations) =
    let rest = label_at key locations in if list_eq key k then some v else rest

infixl 3 ◌▷◌
abbrev pub ◌▷◌ {ℓ} : {A : Type ℓ} → ScriptBuilder → (ScriptBuilder → A) → A
b ▷ method = method b

unfoldable pub current_size : ScriptBuilder → ℕ
current_size b = length b.writer.buffer

-- A call of a method of the writer; those below cannot fail.
unfoldable pub through : Put → ScriptBuilder → ScriptBuilder
through put b = elim (put b.writer) [ ok w ↦ record b { writer = w } | err e ↦ b ]

unfoldable pub fail : String → ScriptBuilder → ScriptBuilder
fail message b = elim b.error [ none ↦ record b { error = some (builder message) } | some e ↦ b ]

unfoldable pub byte : ℕ → ScriptBuilder → ScriptBuilder
unfolding through
byte value b = through (write_u8 value) b

unfoldable pub emit : Opcode → ScriptBuilder → ScriptBuilder
unfolding through
emit opcode b = through (write_u8 (opcode_byte opcode)) b

unfoldable pub emit_raw : Bytes → ScriptBuilder → ScriptBuilder
unfolding through
emit_raw data_bytes b = through (write data_bytes) b

unfoldable pub emit_load : ℕ → Bytes → VmType → ScriptBuilder → ScriptBuilder
unfolding emit byte through fail
emit_load reg raw vm_type b =
    if ltb 0xFFFF (length raw)
    then fail "tried to load too much data" b
    else (b
        ▷ emit Opcode.load
        ▷ byte reg
        ▷ byte (vm_type_byte vm_type)
        ▷ through (write_var_uint (length raw))
        ▷ through (write raw))

unfoldable pub emit_label : Bytes → ScriptBuilder → ScriptBuilder
unfolding emit
emit_label label b =
    let marked = emit Opcode.nop b in
    record marked {
      label_locations =
          insert_label (to_ascii_lowercase label) (current_size marked) marked.label_locations;
    }

-- The two bytes that `to_script` fills in.
unfoldable pub reserve_target : Bytes → ScriptBuilder → ScriptBuilder
unfolding through
reserve_target label b =
    let reserved = through (write_u16_le 0) b in
    record reserved {
      jump_locations = insert_location (current_size b) label reserved.jump_locations;
    }

unfoldable pub emit_jump : Opcode → Bytes → ℕ → ScriptBuilder → ScriptBuilder
unfolding emit byte reserve_target fail
emit_jump opcode label reg b =
    if not (is_jump opcode)
    then fail "invalid jump opcode" b
    else (b
        ▷ emit opcode
        ▷ (λ emitted. if not (is_jmp opcode) then byte reg emitted else emitted)
        ▷ reserve_target label)

unfoldable pub emit_call : Bytes → ℕ → ScriptBuilder → ScriptBuilder
unfolding emit byte reserve_target fail
emit_call label register_count b =
    if (register_count == 0) || ltb max_register_count register_count
    then fail "invalid number of registers" b
    else let opened = b ▷ emit Opcode.call ▷ byte register_count in
      let reserved = reserve_target label opened in
      record reserved { call_offsets = insert_offset (current_size opened) reserved.call_offsets }

unfoldable pub emit_conditional_jump : Opcode → ℕ → Bytes → ScriptBuilder → ScriptBuilder
unfolding emit_jump fail
emit_conditional_jump opcode src_reg label b =
    if not (is_conditional_jump opcode)
    then fail "invalid conditional jump opcode" b
    else emit_jump opcode label src_reg b

unfoldable pub emit_var_bytes : ℕ → ScriptBuilder → ScriptBuilder
unfolding through
emit_var_bytes value b = through (write_var_uint value) b

-- The body of the loop of `to_script`: the lookup, the limit, and the patch of two bytes.
unfoldable pub target_of : LabelLocations → List ℕ → ℕ → Bytes → Result ℕ
target_of labels calls offset label = elim (label_at (to_ascii_lowercase label) labels) [
  | none ↦ err (builder "could not find label")
  | some target ↦
      let limit = if has_offset offset calls then max_call_target else max_jump_target in
      if ltb limit target
      then err (builder "label offset is above the largest target allowed here")
      else ok target
]

unfoldable pub patch_at : ℕ → ℕ → Bytes → Result Bytes
patch_at offset target script =
    if leb (length script) (offset + 1)
    then err (builder "invalid jump patch offset")
    else ok (take offset script ++ le_bytes 2 (target % 2 ^ 16) ++ drop (offset + 2) script)

unfoldable pub patch_all : LabelLocations → List ℕ → JumpLocations → Bytes → Result Bytes
unfolding target_of patch_at
patch_all labels calls [] script = ok script
patch_all labels calls ((offset, label) ∷ locations) script =
    target_of labels calls offset label >>= λ target.
    patch_at offset target script >>= patch_all labels calls locations

unfoldable pub to_script : ScriptBuilder → Result Bytes
unfolding patch_all
to_script b = patch_all b.label_locations b.call_offsets b.jump_locations b.writer.buffer

-- `match self.to_script()`.
unfoldable pub script_or_error : Result Bytes → Bytes × Option PhantasmaError
script_or_error (ok script) = (script, none)
script_or_error (err e) = ([], some e)

-- The answer, and the builder after it: `self.error.take()` leaves no error behind.
unfoldable pub end_with :
    Option PhantasmaError → ScriptBuilder → (Bytes × Option PhantasmaError) × ScriptBuilder
unfolding to_script script_or_error
end_with (some e) ended = (([], some e), record ended { error = none })
end_with none ended = (script_or_error (to_script ended), ended)

unfoldable pub end_script_with_error :
    ScriptBuilder → (Bytes × Option PhantasmaError) × ScriptBuilder
unfolding emit end_with
end_script_with_error b = let ended = emit Opcode.ret b in end_with ended.error ended

unfoldable pub end_script : ScriptBuilder → Result Bytes × ScriptBuilder
unfolding end_script_with_error
end_script b =
    let ((script, error), ended) = end_script_with_error b in
    (elim error [ some e ↦ err e | none ↦ ok script ], ended)
