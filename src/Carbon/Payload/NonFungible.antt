-- ===== src/Carbon/Payload/NonFungible.antt =====
-- The messages of src/carbon.rs that move, mint or burn NFTs.
pub mod Laws
use phantasma_sdk_rs.Prelude.{
  ℕ, ◌+◌, ◌^◌, ◌≤◌, ◌<◌, ◌≡◌, refl, arith, List, [], ◌∷◌, length, All, ℤ, pos, negsuc, InRange,
  Bool, true, false, if◌then◌else◌, ltb, All-map,
}
use phantasma_sdk_rs.Error.{Result, ok, err, serialization}
use phantasma_sdk_rs.Stream.{Bytes, Put, Get, ◌▹◌, pure, ◌>>=◌}
use phantasma_sdk_rs.BigInt.{BigIntBytes}
use phantasma_sdk_rs.Carbon.Wire.{
  CarbonSerializable, half32, half64, write1, write4, write8, write4u, write8u, write32, write64,
  write_byte_array, write_u64_array, write_carbon_array, read1, read4, read8, read4u, read8u,
  read32, read64, read_byte_array, read_u64_array, read_carbon_array,
}
use phantasma_sdk_rs.Carbon.SmallString.{
  SmallString, write_small_string, read_small_string, IsSmall, Codes-small_string,
}
use phantasma_sdk_rs.Carbon.IntX.{IntX, write_int_x, read_int_x}

pub record TxMsgTransferNonFungibleSingle : Type 0 where
  pub to : Bytes
  pub token_id : ℕ
  pub instance_id : ℕ

unfoldable pub write_transfer_non_fungible_single : TxMsgTransferNonFungibleSingle → Put
write_transfer_non_fungible_single m = write32 m.to ▹ write8u m.token_id ▹ write8u m.instance_id

unfoldable pub read_transfer_non_fungible_single : Get TxMsgTransferNonFungibleSingle
read_transfer_non_fungible_single = do
  to ← read32
  token_id ← read8u
  instance_id ← read8u
  pure (record { to = to; token_id = token_id; instance_id = instance_id })

instance abbrev pub transfer_non_fungible_single_carbon :
    CarbonSerializable TxMsgTransferNonFungibleSingle
transfer_non_fungible_single_carbon = record {
  write_carbon = write_transfer_non_fungible_single;
  read_carbon = read_transfer_non_fungible_single;
}

pub record TxMsgTransferNonFungibleSingleGasPayer : Type 0 where
  pub to : Bytes
  pub from_address : Bytes
  pub token_id : ℕ
  pub instance_id : ℕ

unfoldable pub write_transfer_non_fungible_single_gas_payer :
    TxMsgTransferNonFungibleSingleGasPayer → Put
write_transfer_non_fungible_single_gas_payer m =
    write32 m.to ▹ write32 m.from_address ▹ write8u m.token_id ▹ write8u m.instance_id

unfoldable pub read_transfer_non_fungible_single_gas_payer :
    Get TxMsgTransferNonFungibleSingleGasPayer
read_transfer_non_fungible_single_gas_payer = do
  to ← read32
  from_address ← read32
  token_id ← read8u
  instance_id ← read8u
  pure (record {
    to = to;
    from_address = from_address;
    token_id = token_id;
    instance_id = instance_id;
  })

instance abbrev pub transfer_non_fungible_single_gas_payer_carbon :
    CarbonSerializable TxMsgTransferNonFungibleSingleGasPayer
transfer_non_fungible_single_gas_payer_carbon = record {
  write_carbon = write_transfer_non_fungible_single_gas_payer;
  read_carbon = read_transfer_non_fungible_single_gas_payer;
}

pub record TxMsgTransferNonFungibleMulti : Type 0 where
  pub to : Bytes
  pub token_id : ℕ
  pub instance_ids : List ℕ

unfoldable pub write_transfer_non_fungible_multi : TxMsgTransferNonFungibleMulti → Put
write_transfer_non_fungible_multi m =
    write32 m.to ▹ write8u m.token_id ▹ write_u64_array m.instance_ids

unfoldable pub read_transfer_non_fungible_multi : Get TxMsgTransferNonFungibleMulti
read_transfer_non_fungible_multi = do
  to ← read32
  token_id ← read8u
  instance_ids ← read_u64_array
  pure (record { to = to; token_id = token_id; instance_ids = instance_ids })

instance abbrev pub transfer_non_fungible_multi_carbon :
    CarbonSerializable TxMsgTransferNonFungibleMulti
transfer_non_fungible_multi_carbon = record {
  write_carbon = write_transfer_non_fungible_multi;
  read_carbon = read_transfer_non_fungible_multi;
}

pub record TxMsgTransferNonFungibleMultiGasPayer : Type 0 where
  pub to : Bytes
  pub from_address : Bytes
  pub token_id : ℕ
  pub instance_ids : List ℕ

unfoldable pub write_transfer_non_fungible_multi_gas_payer :
    TxMsgTransferNonFungibleMultiGasPayer → Put
write_transfer_non_fungible_multi_gas_payer m =
    write32 m.to ▹ write32 m.from_address ▹ write8u m.token_id ▹ write_u64_array m.instance_ids

unfoldable pub read_transfer_non_fungible_multi_gas_payer :
    Get TxMsgTransferNonFungibleMultiGasPayer
read_transfer_non_fungible_multi_gas_payer = do
  to ← read32
  from_address ← read32
  token_id ← read8u
  instance_ids ← read_u64_array
  pure (record {
    to = to;
    from_address = from_address;
    token_id = token_id;
    instance_ids = instance_ids;
  })

instance abbrev pub transfer_non_fungible_multi_gas_payer_carbon :
    CarbonSerializable TxMsgTransferNonFungibleMultiGasPayer
transfer_non_fungible_multi_gas_payer_carbon = record {
  write_carbon = write_transfer_non_fungible_multi_gas_payer;
  read_carbon = read_transfer_non_fungible_multi_gas_payer;
}

pub record TxMsgMintNonFungible : Type 0 where
  pub token_id : ℕ
  pub to : Bytes
  pub series_id : ℕ
  pub rom : Bytes
  pub ram : Bytes

unfoldable pub write_mint_non_fungible : TxMsgMintNonFungible → Put
write_mint_non_fungible m =
    write8u m.token_id
    ▹ write32 m.to
    ▹ write4u m.series_id
    ▹ write_byte_array m.rom
    ▹ write_byte_array m.ram

unfoldable pub read_mint_non_fungible : Get TxMsgMintNonFungible
read_mint_non_fungible = do
  token_id ← read8u
  to ← read32
  series_id ← read4u
  rom ← read_byte_array
  ram ← read_byte_array
  pure (record { token_id = token_id; to = to; series_id = series_id; rom = rom; ram = ram })

instance abbrev pub mint_non_fungible_carbon : CarbonSerializable TxMsgMintNonFungible
mint_non_fungible_carbon = record {
  write_carbon = write_mint_non_fungible;
  read_carbon = read_mint_non_fungible;
}

pub record TxMsgBurnNonFungible : Type 0 where
  pub token_id : ℕ
  pub instance_id : ℕ

unfoldable pub write_burn_non_fungible : TxMsgBurnNonFungible → Put
write_burn_non_fungible m = write8u m.token_id ▹ write8u m.instance_id

unfoldable pub read_burn_non_fungible : Get TxMsgBurnNonFungible
read_burn_non_fungible = do
  token_id ← read8u
  instance_id ← read8u
  pure (record { token_id = token_id; instance_id = instance_id })

instance abbrev pub burn_non_fungible_carbon : CarbonSerializable TxMsgBurnNonFungible
burn_non_fungible_carbon = record {
  write_carbon = write_burn_non_fungible;
  read_carbon = read_burn_non_fungible;
}

pub record TxMsgBurnNonFungibleGasPayer : Type 0 where
  pub token_id : ℕ
  pub from_address : Bytes
  pub instance_id : ℕ

unfoldable pub write_burn_non_fungible_gas_payer : TxMsgBurnNonFungibleGasPayer → Put
write_burn_non_fungible_gas_payer m =
    write8u m.token_id ▹ write32 m.from_address ▹ write8u m.instance_id

unfoldable pub read_burn_non_fungible_gas_payer : Get TxMsgBurnNonFungibleGasPayer
read_burn_non_fungible_gas_payer = do
  token_id ← read8u
  from_address ← read32
  instance_id ← read8u
  pure (record { token_id = token_id; from_address = from_address; instance_id = instance_id })

instance abbrev pub burn_non_fungible_gas_payer_carbon :
    CarbonSerializable TxMsgBurnNonFungibleGasPayer
burn_non_fungible_gas_payer_carbon = record {
  write_carbon = write_burn_non_fungible_gas_payer;
  read_carbon = read_burn_non_fungible_gas_payer;
}
