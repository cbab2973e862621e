-- ===== src/Carbon/Payload/Witnesses/Laws.antt =====
-- The ranges of the fields, and that every message of Witnesses in range is read as it was written.
use phantasma_sdk_rs.Prelude.{◌≡◌, refl, arith, length}
use phantasma_sdk_rs.Stream.Codes.{Codes, Codes-bind, Codes-end, Codes-weaken}
use phantasma_sdk_rs.Carbon.Wire.Laws.{Codes-32, Codes-64}
use phantasma_sdk_rs.Carbon.Payload.Witnesses.{Witness, write_witness, read_witness, witness_carbon}

-- The ranges of the field types of Witness.
pub record WitnessFits (m : Witness) : Type 0 where
  pub address : length m.address ≡ 32
  pub signature : length m.signature ≡ 64

pub Codes-witness : (m : Witness) → WitnessFits m → Codes 1 (write_witness m) read_witness m
unfolding write_witness read_witness
Codes-witness m h = Codes-weaken 1 (omega arith) (
    Codes-bind _ (Codes-32 m.address h.address)
      (Codes-end _ (Codes-64 m.signature h.signature) refl))
