-- ===== src/Vm/Script/Assembled.antt =====
-- The patching loop of src/vm.rs against the assembler that knows the labels beforehand.
use phantasma_sdk_rs.Prelude.{
  ℕ, ◌+◌, ◌%◌, ◌^◌, ◌<◌, ◌≡◌, refl, ap, sym, ◌∙◌, arith, List, [], ◌∷◌, ◌++◌, Bool, true, false,
  leb, ◌==◌, ◌||◌, Option, none, some, length, length-append, All, append_assoc, drop, take-append,
  drop-append, All-map,
}
use phantasma_sdk_rs.Error.{Result, ok, err, ◌>>=◌}
use phantasma_sdk_rs.Stream.{Bytes, le_bytes}
use phantasma_sdk_rs.Stream.Codes.{length-le_bytes}
use phantasma_sdk_rs.Text.Ascii.{to_ascii_lowercase}
use phantasma_sdk_rs.Vm.Script.{
  ScriptBuilder, LabelLocations, label_at, has_offset, target_of, patch_at, patch_all, to_script,
  JumpLocations,
}
use phantasma_sdk_rs.Vm.Script.Pieces.{
  Pieces, raw, mark, target, blank, last_mark, targets_of, calls_of, aim, fill, assemble,
}
use phantasma_sdk_rs.Vm.Script.Refines.{Refines}

has_offset-append :
    (key : ℕ) (xs ys : List ℕ)
    → has_offset key (xs ++ ys) ≡ (has_offset key xs || has_offset key ys)
unfolding has_offset
has_offset-append key [] ys = refl
has_offset-append key (x ∷ xs) ys = rw (has_offset-append key xs ys) (or_assoc (key == x) _ _)
  where
    or_assoc : (a b c : Bool) → (a || (b || c)) ≡ ((a || b) || c)
    or_assoc true b c = refl
    or_assoc false b c = refl

-- A key is not among smaller offsets, nor among larger ones.
has_offset_below : (key : ℕ) (xs : List ℕ) → All (λ x. x < key) xs → has_offset key xs ≡ false
unfolding has_offset
has_offset_below key [] h = refl
has_offset_below key (x ∷ xs) (h, hs) =
    let other : (key == x) ≡ false = ground arith in rw other (has_offset_below key xs hs)

has_offset_later :
    (key place : ℕ) (pieces : Pieces) → key < place → has_offset key (calls_of place pieces) ≡ false
unfolding has_offset
has_offset_later key place [] h = refl
has_offset_later key place (raw bytes ∷ pieces) h =
    has_offset_later key (place + length bytes) pieces (omega arith)
has_offset_later key place (mark label ∷ pieces) h = has_offset_later key place pieces h
has_offset_later key place (target label true ∷ pieces) h =
    let other : (key == place) ≡ false = ground arith in
    rw other (has_offset_later key (place + 2) pieces (omega arith))
has_offset_later key place (target label false ∷ pieces) h =
    has_offset_later key (place + 2) pieces (omega arith)

-- The set of calls tells at a target whether it is one of a call.
has_offset-calls_of :
    (prior : List ℕ) (place : ℕ) (label : Bytes) (is_call : Bool) (pieces : Pieces)
    → All (λ k. k < place) prior
    → has_offset place (prior ++ calls_of place (target label is_call ∷ pieces)) ≡ is_call
has_offset-calls_of prior place label true pieces h =
    let here : (place == place) ≡ true = ground arith in
    rw (has_offset-append, has_offset_below place prior h) (unfold has_offset in rw here)
has_offset-calls_of prior place label false pieces h =
    rw (has_offset-append, has_offset_below place prior h)
      (has_offset_later place (place + 2) pieces (omega arith))

target_of-aim :
    (labels : LabelLocations) (calls : List ℕ) (place : ℕ) (label : Bytes) (is_call : Bool)
    → has_offset place calls ≡ is_call
    → target_of labels calls place label ≡ aim (label_at (to_ascii_lowercase label) labels) is_call
unfolding target_of aim
target_of-aim labels calls place label is_call e =
    go (label_at (to_ascii_lowercase label) labels) refl
  where
    go :
        (found : Option ℕ)
        → label_at (to_ascii_lowercase label) labels ≡ found
        → target_of labels calls place label ≡ aim found is_call
    go none f = rw (f, target_of)
    go (some n) f = rw (f, target_of, e)

aim_small :
    (found : Option ℕ) (is_call : Bool) (place : ℕ) → aim found is_call ≡ ok place → place < 2 ^ 16
unfolding aim
aim_small none is_call place e = absurd cc
aim_small (some n) true place e = ground arith
aim_small (some n) false place e = ground arith

drop_two : (front rest : Bytes) → drop (length front + 2) (front ++ 0 ∷ 0 ∷ rest) ≡ rest
drop_two front rest =
    let reach : length front + 2 ≡ length (front ++ 0 ∷ 0 ∷ []) =
      omega (arith, length-append front (0 ∷ 0 ∷ [])) in
    rw reach (
      ap (drop (length (front ++ 0 ∷ 0 ∷ []))) (sym (append_assoc front (0 ∷ 0 ∷ []) rest))
      ∙ drop-append (front ++ 0 ∷ 0 ∷ []) rest)

patch_at_place :
    (front : Bytes) (place : ℕ) (rest : Bytes)
    → place < 2 ^ 16
    → patch_at (length front) place (front ++ 0 ∷ 0 ∷ rest)
      ≡ ok ((front ++ le_bytes 2 place) ++ rest)
unfolding patch_at
patch_at_place front place rest h =
    let room : leb (length (front ++ 0 ∷ 0 ∷ rest)) (length front + 1) ≡ false =
      ground (arith, length-append front (0 ∷ 0 ∷ rest)) in
    let whole : place % 2 ^ 16 ≡ place = omega arith in
    rw (room, whole, take-append, drop_two front rest)

-- A front that is put before a result in two steps.
prefix_twice :
    (filled : Result Bytes) (front bytes : Bytes)
    → (filled >>= λ rest. ok ((front ++ bytes) ++ rest))
      ≡ ((filled >>= λ rest. ok (bytes ++ rest)) >>= λ rest. ok (front ++ rest))
prefix_twice (err e) front bytes = refl
prefix_twice (ok rest) front bytes = ap ok (append_assoc front bytes rest)

below_snoc :
    (place : ℕ) (xs : List ℕ)
    → All (λ k. k < place) xs
    → All (λ k. k < place + 2) (xs ++ place ∷ [])
below_snoc place [] h = (omega arith, tt)
below_snoc place (x ∷ xs) (h, hs) = (omega arith, below_snoc place xs hs)

patch_all_cons :
    (labels : LabelLocations) (calls : List ℕ) (offset : ℕ) (label : Bytes)
    (locations : JumpLocations) (script : Bytes)
    → patch_all labels calls ((offset, label) ∷ locations) script ≡ (
        target_of labels calls offset label >>= λ t.
        patch_at offset t script >>= patch_all labels calls locations)
unfolding patch_all
patch_all_cons labels calls offset label locations script = refl

fill_target :
    (find : Bytes → Option ℕ) (label : Bytes) (is_call : Bool) (pieces : Pieces)
    → fill find (target label is_call ∷ pieces) ≡ (
        aim (find label) is_call >>= λ place.
        fill find pieces >>= λ rest. ok (le_bytes 2 place ++ rest))
unfolding fill
fill_target find label is_call pieces = refl

module _ (labels : LabelLocations) (find : Bytes → Option ℕ)
    (agree : (label : Bytes) → label_at (to_ascii_lowercase label) labels ≡ find label) where
  -- The patch of one target, after which the loop goes on behind it.
  target_step :
      (label : Bytes) (is_call : Bool) (pieces : Pieces) (front : Bytes) (place : ℕ)
      (calls : List ℕ)
      → length front ≡ place
      → has_offset place calls ≡ is_call
      → ((t : ℕ)
          → patch_all labels calls
              (targets_of (place + 2) pieces)
              ((front ++ le_bytes 2 t) ++ blank pieces)
            ≡ (fill find pieces >>= λ rest. ok ((front ++ le_bytes 2 t) ++ rest)))
      → patch_all labels calls
          (targets_of place (target label is_call ∷ pieces))
          (front ++ blank (target label is_call ∷ pieces))
        ≡ (fill find (target label is_call ∷ pieces) >>= λ rest. ok (front ++ rest))
  target_step label is_call pieces front place calls here known later =
      patch_all_cons labels calls place label _ _
      ∙ ap
          (λ answer. answer >>= λ t.
            patch_at place t (front ++ 0 ∷ 0 ∷ blank pieces)
            >>= patch_all labels calls (targets_of (place + 2) pieces))
          aimed
      ∙ go (aim (find label) is_call) refl
    where
      aimed : target_of labels calls place label ≡ aim (find label) is_call
      aimed =
          target_of-aim labels calls place label is_call known
          ∙ ap (λ found. aim found is_call) (agree label)

      go :
          (answer : Result ℕ)
          → aim (find label) is_call ≡ answer
          → (answer >>= λ t.
              patch_at place t (front ++ 0 ∷ 0 ∷ blank pieces)
              >>= patch_all labels calls (targets_of (place + 2) pieces))
            ≡ (fill find (target label is_call ∷ pieces) >>= λ rest. ok (front ++ rest))
      go (err e) q = rw (fill_target find label is_call pieces, q)
      go (ok t) q =
          let patched =
            patch_at_place front t (blank pieces) (aim_small (find label) is_call t q) in
          rw (fill_target find label is_call pieces, q, sym here, patched)
            (rw here (later t ∙ prefix_twice (fill find pieces) front (le_bytes 2 t)))

  patch_all-fill :
      (pieces : Pieces) (front : Bytes) (place : ℕ) (prior calls : List ℕ)
      → length front ≡ place
      → All (λ k. k < place) prior
      → calls ≡ prior ++ calls_of place pieces
      → patch_all labels calls (targets_of place pieces) (front ++ blank pieces)
        ≡ (fill find pieces >>= λ rest. ok (front ++ rest))
  unfolding patch_all fill
  patch_all-fill [] front place prior calls here h e = refl
  patch_all-fill (raw bytes ∷ pieces) front place prior calls here h e =
      ap (patch_all labels calls (targets_of (place + length bytes) pieces))
        (sym (append_assoc front bytes (blank pieces)))
      ∙ patch_all-fill pieces (front ++ bytes) (place + length bytes) prior calls
          (omega (arith, length-append front bytes)) (All-map (λ k small. omega arith) prior h) e
      ∙ prefix_twice (fill find pieces) front bytes
  patch_all-fill (mark label ∷ pieces) front place prior calls here h e =
      patch_all-fill pieces front place prior calls here h e
  patch_all-fill (target label true ∷ pieces) front place prior calls here h e =
      target_step label true pieces front place calls here
        (ap (has_offset place) e ∙ has_offset-calls_of prior place label true pieces h)
        (λ t.
          patch_all-fill pieces (front ++ le_bytes 2 t) (place + 2) (prior ++ place ∷ []) calls
            (omega (arith, length-append front (le_bytes 2 t), length-le_bytes 2 t))
            (below_snoc place prior h)
            (e ∙ sym (append_assoc prior (place ∷ []) (calls_of (place + 2) pieces))))
  patch_all-fill (target label false ∷ pieces) front place prior calls here h e =
      target_step label false pieces front place calls here
        (ap (has_offset place) e ∙ has_offset-calls_of prior place label false pieces h)
        (λ t.
          patch_all-fill pieces (front ++ le_bytes 2 t) (place + 2) prior calls
            (omega (arith, length-append front (le_bytes 2 t), length-le_bytes 2 t))
            (All-map (λ k small. omega arith) prior h) e)

-- A builder that stands for pieces makes the script that the assembler makes of them.
pub to_script-Refines :
    (pieces : Pieces) (b : ScriptBuilder) → Refines pieces b → to_script b ≡ assemble pieces
unfolding to_script assemble
to_script-Refines pieces b r =
    rw (r.buffer, r.targets)
      (patch_all-fill b.label_locations _ (λ label. r.labels (to_ascii_lowercase label)) pieces [] 0
          [] b.call_offsets refl tt r.calls
        ∙ same (fill (λ label. last_mark (to_ascii_lowercase label) 0 pieces none) pieces))
  where
    same : (filled : Result Bytes) → (filled >>= λ rest. ok ([] ++ rest)) ≡ filled
    same (err e) = refl
    same (ok rest) = refl
