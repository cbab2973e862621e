-- ===== src/Carbon/Payload/Script.antt =====
-- The messages of src/carbon.rs that carry a VM script or a whole VM transaction.
pub mod Laws
use phantasma_sdk_rs.Prelude.{
  ℕ, ◌+◌, ◌^◌, ◌≤◌, ◌<◌, ◌≡◌, refl, arith, List, [], ◌∷◌, length, All, ℤ, pos, negsuc, InRange,
  Bool, true, false, if◌then◌else◌, ltb, All-map,
}
use phantasma_sdk_rs.Error.{Result, ok, err, serialization}
use phantasma_sdk_rs.Stream.{Bytes, Put, Get, ◌▹◌, pure, ◌>>=◌}
use phantasma_sdk_rs.BigInt.{BigIntBytes}
use phantasma_sdk_rs.Carbon.Wire.{
  CarbonSerializable, half32, half64, write1, write4, write8, write4u, write8u, write32, write64,
  write_byte_array, write_u64_array, write_carbon_array, read1, read4, read8, read4u, read8u,
  read32, read64, read_byte_array, read_u64_array, read_carbon_array,
}
use phantasma_sdk_rs.Carbon.SmallString.{
  SmallString, write_small_string, read_small_string, IsSmall, Codes-small_string,
}
use phantasma_sdk_rs.Carbon.IntX.{IntX, write_int_x, read_int_x}

pub record TxMsgPhantasma : Type 0 where
  pub nexus : SmallString
  pub chain : SmallString
  pub script : Bytes

unfoldable pub write_phantasma : TxMsgPhantasma → Put
write_phantasma m =
    write_small_string m.nexus ▹ write_small_string m.chain ▹ write_byte_array m.script

unfoldable pub read_phantasma : Get TxMsgPhantasma
read_phantasma = do
  nexus ← read_small_string
  chain ← read_small_string
  script ← read_byte_array
  pure (record { nexus = nexus; chain = chain; script = script })

instance abbrev pub phantasma_carbon : CarbonSerializable TxMsgPhantasma
phantasma_carbon = record { write_carbon = write_phantasma; read_carbon = read_phantasma }

pub record TxMsgPhantasmaRaw : Type 0 where
  pub transaction : Bytes

unfoldable pub write_phantasma_raw : TxMsgPhantasmaRaw → Put
write_phantasma_raw m = write_byte_array m.transaction

unfoldable pub read_phantasma_raw : Get TxMsgPhantasmaRaw
read_phantasma_raw = do transaction ← read_byte_array; pure (record { transaction = transaction })

instance abbrev pub phantasma_raw_carbon : CarbonSerializable TxMsgPhantasmaRaw
phantasma_raw_carbon = record {
  write_carbon = write_phantasma_raw;
  read_carbon = read_phantasma_raw;
}
