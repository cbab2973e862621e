-- ===== src/Carbon/Payload/Script/Laws.antt =====
-- The ranges of the fields, and that every message of Script in range is read as it was written.
use phantasma_sdk_rs.Prelude.{◌<◌, refl, arith, length}
use phantasma_sdk_rs.Carbon.Wire.{half32}
use phantasma_sdk_rs.Carbon.SmallString.{IsSmall, Codes-small_string}
use phantasma_sdk_rs.Stream.Codes.{Codes, Codes-bind, Codes-end, Codes-weaken}
use phantasma_sdk_rs.Carbon.Wire.Laws.{Codes-byte_array}
use phantasma_sdk_rs.Carbon.Payload.Script.{
  TxMsgPhantasma, write_phantasma, read_phantasma, phantasma_carbon, TxMsgPhantasmaRaw,
  write_phantasma_raw, read_phantasma_raw, phantasma_raw_carbon,
}

-- The ranges of the field types of TxMsgPhantasma, with arrays shorter than 2 ^ 31.
pub record TxMsgPhantasmaFits (m : TxMsgPhantasma) : Type 0 where
  pub nexus : IsSmall m.nexus
  pub chain : IsSmall m.chain
  pub script : length m.script < half32

pub Codes-phantasma :
    (m : TxMsgPhantasma) → TxMsgPhantasmaFits m → Codes 1 (write_phantasma m) read_phantasma m
unfolding write_phantasma read_phantasma
Codes-phantasma m h = Codes-weaken 1 (omega arith) (
    Codes-bind _ (Codes-small_string m.nexus h.nexus) (
      Codes-bind _ (Codes-small_string m.chain h.chain)
        (Codes-end _ (Codes-byte_array m.script h.script) refl)))

-- The ranges of the field types of TxMsgPhantasmaRaw, with arrays shorter than 2 ^ 31.
pub record TxMsgPhantasmaRawFits (m : TxMsgPhantasmaRaw) : Type 0 where
  pub transaction : length m.transaction < half32

pub Codes-phantasma_raw :
    (m : TxMsgPhantasmaRaw)
    → TxMsgPhantasmaRawFits m
    → Codes 1 (write_phantasma_raw m) read_phantasma_raw m
unfolding write_phantasma_raw read_phantasma_raw
Codes-phantasma_raw m h =
    Codes-weaken 1 (omega arith) (Codes-end _ (Codes-byte_array m.transaction h.transaction) refl)
