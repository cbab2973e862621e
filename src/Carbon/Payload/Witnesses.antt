-- ===== src/Carbon/Payload/Witnesses.antt =====
-- Witness of src/carbon.rs: an address with its signature.
pub mod Laws
use phantasma_sdk_rs.Prelude.{
  ℕ, ◌+◌, ◌^◌, ◌≤◌, ◌<◌, ◌≡◌, refl, arith, List, [], ◌∷◌, length, All, ℤ, pos, negsuc, InRange,
  Bool, true, false, if◌then◌else◌, ltb, All-map,
}
use phantasma_sdk_rs.Error.{Result, ok, err, serialization}
use phantasma_sdk_rs.Stream.{Bytes, Put, Get, ◌▹◌, pure, ◌>>=◌}
use phantasma_sdk_rs.BigInt.{BigIntBytes}
use phantasma_sdk_rs.Carbon.Wire.{
  CarbonSerializable, half32, half64, write1, write4, write8, write4u, write8u, write32, write64,
  write_byte_array, write_u64_array, write_carbon_array, read1, read4, read8, read4u, read8u,
  read32, read64, read_byte_array, read_u64_array, read_carbon_array,
}
use phantasma_sdk_rs.Carbon.SmallString.{
  SmallString, write_small_string, read_small_string, IsSmall, Codes-small_string,
}
use phantasma_sdk_rs.Carbon.IntX.{IntX, write_int_x, read_int_x}

pub record Witness : Type 0 where
  pub address : Bytes
  pub signature : Bytes

unfoldable pub write_witness : Witness → Put
write_witness m = write32 m.address ▹ write64 m.signature

unfoldable pub read_witness : Get Witness
read_witness = do
  address ← read32
  signature ← read64
  pure (record { address = address; signature = signature })

instance abbrev pub witness_carbon : CarbonSerializable Witness
witness_carbon = record { write_carbon = write_witness; read_carbon = read_witness }
