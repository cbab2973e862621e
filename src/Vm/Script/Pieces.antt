-- ===== src/Vm/Script/Pieces.antt =====
-- What a script of src/vm.rs is, without a builder: a list of pieces, of which the targets take two
-- bytes each, and an assembler that knows every label before it writes a byte.
use phantasma_sdk_rs.Prelude.{
  ℕ, suc, true, false, ◌+◌, ◌≡◌, refl, ap, sym, arith, List, [], ◌∷◌, ◌++◌, append_assoc, Bool, ltb,
  if◌then◌else◌, Option, none, some, length, list_eq, length-append,
}
use phantasma_sdk_rs.Error.{Result, ok, err, builder, ◌>>=◌}
use phantasma_sdk_rs.Stream.{Bytes, le_bytes}
use phantasma_sdk_rs.Text.Ascii.{to_ascii_lowercase}
use phantasma_sdk_rs.Vm.Script.{max_jump_target, max_call_target, JumpLocations}

-- Bytes as they are, the place of a label, and a target, of a call if the mark says so.
pub data Piece : Type 0 where
  raw : Bytes → Piece
  mark : Bytes → Piece
  target : Bytes → Bool → Piece

abbrev pub Pieces : Type 0
Pieces = List Piece

-- The pieces with zeros for the targets.
abbrev pub blank : Pieces → Bytes
blank [] = []
blank (raw bytes ∷ pieces) = bytes ++ blank pieces
blank (mark label ∷ pieces) = blank pieces
blank (target label is_call ∷ pieces) = 0 ∷ 0 ∷ blank pieces

-- The place of the last mark of a label, in lower case.
abbrev pub last_mark : Bytes → ℕ → Pieces → Option ℕ → Option ℕ
last_mark key place [] found = found
last_mark key place (raw bytes ∷ pieces) found = last_mark key (place + length bytes) pieces found
last_mark key place (mark label ∷ pieces) found =
    last_mark key place pieces
      (if list_eq key (to_ascii_lowercase label) then some place else found)
last_mark key place (target label is_call ∷ pieces) found = last_mark key (place + 2) pieces found

unfoldable pub aim : Option ℕ → Bool → Result ℕ
aim none is_call = err (builder "could not find label")
aim (some place) is_call =
    if ltb (if is_call then max_call_target else max_jump_target) place
    then err (builder "label offset is above the largest target allowed here")
    else ok place

unfoldable pub fill : (Bytes → Option ℕ) → Pieces → Result Bytes
unfolding aim
fill find [] = ok []
fill find (raw bytes ∷ pieces) = fill find pieces >>= λ rest. ok (bytes ++ rest)
fill find (mark label ∷ pieces) = fill find pieces
fill find (target label is_call ∷ pieces) =
    aim (find label) is_call >>= λ place. fill find pieces >>= λ rest. ok (le_bytes 2 place ++ rest)

-- A target is the place of its label.
unfoldable pub assemble : Pieces → Result Bytes
unfolding fill
assemble pieces = fill (λ label. last_mark (to_ascii_lowercase label) 0 pieces none) pieces

-- Where the targets lie, and those of calls.
abbrev pub targets_of : ℕ → Pieces → JumpLocations
targets_of place [] = []
targets_of place (raw bytes ∷ pieces) = targets_of (place + length bytes) pieces
targets_of place (mark label ∷ pieces) = targets_of place pieces
targets_of place (target label is_call ∷ pieces) = (place, label) ∷ targets_of (place + 2) pieces

abbrev pub calls_of : ℕ → Pieces → List ℕ
calls_of place [] = []
calls_of place (raw bytes ∷ pieces) = calls_of (place + length bytes) pieces
calls_of place (mark label ∷ pieces) = calls_of place pieces
calls_of place (target label is_call ∷ pieces) =
    if is_call then place ∷ calls_of (place + 2) pieces else calls_of (place + 2) pieces

pub blank-append : (ps qs : Pieces) → blank (ps ++ qs) ≡ blank ps ++ blank qs
blank-append [] qs = refl
blank-append (raw bytes ∷ ps) qs =
    rw (blank-append ps qs) (sym (append_assoc bytes (blank ps) (blank qs)))
blank-append (mark label ∷ ps) qs = blank-append ps qs
blank-append (target label is_call ∷ ps) qs = ap (λ t. 0 ∷ 0 ∷ t) (blank-append ps qs)

-- The place behind pieces.
place_after :
    (place : ℕ) (bytes : Bytes) (rest : Bytes)
    → place + length (bytes ++ rest) ≡ place + length bytes + length rest
place_after place bytes rest = omega (arith, length-append bytes rest)

two_after : (place : ℕ) (n : ℕ) → place + suc (suc n) ≡ place + 2 + n
two_after place n = omega arith

pub last_mark-append :
    (key : Bytes) (place : ℕ) (ps qs : Pieces) (found : Option ℕ)
    → last_mark key place (ps ++ qs) found
      ≡ last_mark key (place + length (blank ps)) qs (last_mark key place ps found)
last_mark-append key place [] qs found = ap (λ p. last_mark key p qs found) (omega arith)
last_mark-append key place (raw bytes ∷ ps) qs found =
    rw (place_after place bytes (blank ps))
      (last_mark-append key (place + length bytes) ps qs found)
last_mark-append key place (mark label ∷ ps) qs found = last_mark-append key place ps qs _
last_mark-append key place (target label is_call ∷ ps) qs found =
    rw (two_after place (length (blank ps))) (last_mark-append key (place + 2) ps qs found)

pub targets_of-append :
    (place : ℕ) (ps qs : Pieces)
    → targets_of place (ps ++ qs) ≡ targets_of place ps ++ targets_of (place + length (blank ps)) qs
targets_of-append place [] qs = ap (λ p. targets_of p qs) (omega arith)
targets_of-append place (raw bytes ∷ ps) qs =
    rw (place_after place bytes (blank ps)) (targets_of-append (place + length bytes) ps qs)
targets_of-append place (mark label ∷ ps) qs = targets_of-append place ps qs
targets_of-append place (target label is_call ∷ ps) qs =
    rw (two_after place (length (blank ps)))
      (ap (λ t. (place, label) ∷ t) (targets_of-append (place + 2) ps qs))

pub calls_of-append :
    (place : ℕ) (ps qs : Pieces)
    → calls_of place (ps ++ qs) ≡ calls_of place ps ++ calls_of (place + length (blank ps)) qs
calls_of-append place [] qs = ap (λ p. calls_of p qs) (omega arith)
calls_of-append place (raw bytes ∷ ps) qs =
    rw (place_after place bytes (blank ps)) (calls_of-append (place + length bytes) ps qs)
calls_of-append place (mark label ∷ ps) qs = calls_of-append place ps qs
calls_of-append place (target label true ∷ ps) qs =
    rw (two_after place (length (blank ps)))
      (ap (λ t. place ∷ t) (calls_of-append (place + 2) ps qs))
calls_of-append place (target label false ∷ ps) qs =
    rw (two_after place (length (blank ps))) (calls_of-append (place + 2) ps qs)
