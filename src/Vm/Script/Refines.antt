-- ===== src/Vm/Script/Refines.antt =====
-- The relation between a builder of src/vm.rs and the pieces it has been given, and that each way to
-- change a builder keeps it.
use phantasma_sdk_rs.Prelude.{
  ℕ, ◌+◌, ◌≡◌, refl, ap, ◌∙◌, arith, [], ◌∷◌, ◌++◌, Bool, true, false, ltb, if◌then◌else◌, Option,
  none, some, list_eq, append_assoc, append-nil, leb, Bool-cases, inl, inr, list_eq→eq, String,
}
use phantasma_sdk_rs.Error.{PhantasmaError, ok, err}
use phantasma_sdk_rs.Stream.{Bytes, Put, write, new_writer, ◌▹◌, le_bytes}
use phantasma_sdk_rs.Binary.{write_u8, write_u16_le, write_u32_le, write_u64_le, write_var_uint}
use phantasma_sdk_rs.Text.Ascii.{to_ascii_lowercase}
use phantasma_sdk_rs.Vm.Script.{
  ScriptBuilder, LabelLocations, new_builder, insert_label, label_at, current_size, through, fail,
}
use phantasma_sdk_rs.Vm.Script.Pieces.{
  Pieces, raw, mark, blank, last_mark, targets_of, calls_of, blank-append, last_mark-append,
  targets_of-append, calls_of-append,
}

-- What a method writes into an empty buffer.
abbrev pub written : Put → Bytes
written put = elim (put (record { buffer = [] })) [ ok w ↦ w.buffer | err e ↦ [] ]

-- A method that appends the same bytes to every buffer.
abbrev pub Appends : Put → Type 0
Appends put =
    (buffer : Bytes)
    → put (record { buffer = buffer }) ≡ ok (record { buffer = buffer ++ written put })

pub write-Appends : (bytes : Bytes) → Appends (write bytes)
unfolding write
write-Appends bytes buffer = refl

chained-Appends : (bytes more : Bytes) → Appends (write bytes ▹ write more)
unfolding write ◌▹◌
chained-Appends bytes more buffer =
    ap (λ t. ok (record { buffer = t })) (append_assoc buffer bytes more)

if-Appends : (test : Bool) (p q : Put) → Appends p → Appends q → Appends (if test then p else q)
if-Appends true p q h k = h
if-Appends false p q h k = k

pub write_var_uint-Appends : (value : ℕ) → Appends (write_var_uint value)
unfolding write_var_uint write_u8 write_u16_le write_u32_le write_u64_le
write_var_uint-Appends value = if-Appends (ltb value 0xFD) _ _ (write-Appends (value ∷ [])) (
    if-Appends (leb value 0xFFFF) _ _ (chained-Appends (0xFD ∷ []) (le_bytes 2 value)) (
      if-Appends (leb value 0xFFFFFFFF) _ _ (chained-Appends (0xFE ∷ []) (le_bytes 4 value))
        (chained-Appends (0xFF ∷ []) (le_bytes 8 value))))

pub record Refines (pieces : Pieces) (b : ScriptBuilder) : Type 0 where
  pub buffer : b.writer.buffer ≡ blank pieces
  pub targets : b.jump_locations ≡ targets_of 0 pieces
  pub calls : b.call_offsets ≡ calls_of 0 pieces
  pub labels : (key : Bytes) → label_at key b.label_locations ≡ last_mark key 0 pieces none

pub new_builder-Refines : Refines [] new_builder
unfolding new_builder new_writer label_at
new_builder-Refines = record { buffer = refl; targets = refl; calls = refl; labels = λ key. refl }

pub through_writes :
    (put : Put) (b : ScriptBuilder)
    → Appends put
    → through put b ≡ record b { writer = record { buffer = b.writer.buffer ++ written put } }
unfolding through
through_writes put b appends =
    ap (λ t. elim t [ ok w ↦ record b { writer = w } | err e ↦ b ]) (appends b.writer.buffer)

pub through-Refines :
    (put : Put) (pieces : Pieces) (b : ScriptBuilder)
    → Appends put
    → Refines pieces b
    → Refines (pieces ++ raw (written put) ∷ []) (through put b)
through-Refines put pieces b appends r = rw (through_writes put b appends) (record {
  buffer = rw (blank-append, append-nil) (ap (λ t. t ++ written put) r.buffer);
  targets = rw (targets_of-append, append-nil) r.targets;
  calls = rw (calls_of-append, append-nil) r.calls;
  labels = λ key. rw last_mark-append (r.labels key);
})

-- An error changes nothing of a script.
pub error-Refines :
    (pieces : Pieces) (b : ScriptBuilder) (error : Option PhantasmaError)
    → Refines pieces b
    → Refines pieces (record b { error = error })
error-Refines pieces b error r = record {
  buffer = r.buffer;
  targets = r.targets;
  calls = r.calls;
  labels = r.labels;
}

pub fail-Refines :
    (message : String) (pieces : Pieces) (b : ScriptBuilder)
    → Refines pieces b
    → Refines pieces (fail message b)
unfolding fail
fail-Refines message pieces b r = go b.error refl
  where
    go : (e : Option PhantasmaError) → b.error ≡ e → Refines pieces (fail message b)
    go none e = rw (e, fail) (error-Refines pieces b _ r)
    go (some found) e = rw (e, fail) r

label_at-insert_label :
    (key label : Bytes) (place : ℕ) (labels : LabelLocations)
    → label_at key (insert_label label place labels)
      ≡ (if list_eq key label then some place else label_at key labels)
unfolding label_at insert_label
label_at-insert_label key label place [] = refl
label_at-insert_label key label place ((k, v) ∷ labels) = elim (Bool-cases (list_eq label k)) [
  | inl e ↦
      let same : list_eq key label ≡ list_eq key k = ap (list_eq key) (list_eq→eq label k e) in
      rw (e, same) (ground arith)
  | inr e ↦
      rw (e, label_at-insert_label key label place labels)
        (elim (Bool-cases (list_eq key label)) [
          | inl d ↦
              let other : list_eq key k ≡ false =
                ap (λ t. list_eq t k) (list_eq→eq key label d) ∙ e in
              rw (d, other)
          | inr d ↦ rw d
        ])
]

pub from_zero : (n : ℕ) → 0 + n ≡ n
from_zero n = omega arith

pub mark-Refines :
    (label : Bytes) (pieces : Pieces) (b : ScriptBuilder)
    → Refines pieces b
    → Refines (pieces ++ mark label ∷ []) (record b {
      label_locations = insert_label (to_ascii_lowercase label) (current_size b) b.label_locations;
    })
unfolding current_size
mark-Refines label pieces b r = record {
  buffer = rw (blank-append, append-nil) r.buffer;
  targets = rw (targets_of-append, append-nil) r.targets;
  calls = rw (calls_of-append, append-nil) r.calls;
  labels = λ key. rw (
    last_mark-append,
    label_at-insert_label key _ _ b.label_locations,
    r.labels key,
    r.buffer,
    from_zero,
  );
}
