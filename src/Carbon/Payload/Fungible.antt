-- ===== src/Carbon/Payload/Fungible.antt =====
-- The messages of src/carbon.rs that move, mint or burn a fungible token.
pub mod Laws
use phantasma_sdk_rs.Prelude.{
  ℕ, ◌+◌, ◌^◌, ◌≤◌, ◌<◌, ◌≡◌, refl, arith, List, [], ◌∷◌, length, All, ℤ, pos, negsuc, InRange,
  Bool, true, false, if◌then◌else◌, ltb, All-map,
}
use phantasma_sdk_rs.Error.{Result, ok, err, serialization}
use phantasma_sdk_rs.Stream.{Bytes, Put, Get, ◌▹◌, pure, ◌>>=◌}
use phantasma_sdk_rs.BigInt.{BigIntBytes}
use phantasma_sdk_rs.Carbon.Wire.{
  CarbonSerializable, half32, half64, write1, write4, write8, write4u, write8u, write32, write64,
  write_byte_array, write_u64_array, write_carbon_array, read1, read4, read8, read4u, read8u,
  read32, read64, read_byte_array, read_u64_array, read_carbon_array,
}
use phantasma_sdk_rs.Carbon.SmallString.{
  SmallString, write_small_string, read_small_string, IsSmall, Codes-small_string,
}
use phantasma_sdk_rs.Carbon.IntX.{IntX, write_int_x, read_int_x}

pub record TxMsgTransferFungible : Type 0 where
  pub to : Bytes
  pub token_id : ℕ
  pub amount : ℕ

unfoldable pub write_transfer_fungible : TxMsgTransferFungible → Put
write_transfer_fungible m = write32 m.to ▹ write8u m.token_id ▹ write8u m.amount

unfoldable pub read_transfer_fungible : Get TxMsgTransferFungible
read_transfer_fungible = do
  to ← read32
  token_id ← read8u
  amount ← read8u
  pure (record { to = to; token_id = token_id; amount = amount })

instance abbrev pub transfer_fungible_carbon : CarbonSerializable TxMsgTransferFungible
transfer_fungible_carbon = record {
  write_carbon = write_transfer_fungible;
  read_carbon = read_transfer_fungible;
}

pub record TxMsgTransferFungibleGasPayer : Type 0 where
  pub to : Bytes
  pub from_address : Bytes
  pub token_id : ℕ
  pub amount : ℕ

unfoldable pub write_transfer_fungible_gas_payer : TxMsgTransferFungibleGasPayer → Put
write_transfer_fungible_gas_payer m =
    write32 m.to ▹ write32 m.from_address ▹ write8u m.token_id ▹ write8u m.amount

unfoldable pub read_transfer_fungible_gas_payer : Get TxMsgTransferFungibleGasPayer
read_transfer_fungible_gas_payer = do
  to ← read32
  from_address ← read32
  token_id ← read8u
  amount ← read8u
  pure (record { to = to; from_address = from_address; token_id = token_id; amount = amount })

instance abbrev pub transfer_fungible_gas_payer_carbon :
    CarbonSerializable TxMsgTransferFungibleGasPayer
transfer_fungible_gas_payer_carbon = record {
  write_carbon = write_transfer_fungible_gas_payer;
  read_carbon = read_transfer_fungible_gas_payer;
}

pub record TxMsgMintFungible : Type 0 where
  pub token_id : ℕ
  pub to : Bytes
  pub amount : IntX

module _ ⦃big : BigIntBytes⦄ where
  unfoldable pub write_mint_fungible : TxMsgMintFungible → Put
  write_mint_fungible m = write8u m.token_id ▹ write32 m.to ▹ write_int_x m.amount

  unfoldable pub read_mint_fungible : Get TxMsgMintFungible
  read_mint_fungible = do
    token_id ← read8u
    to ← read32
    amount ← read_int_x
    pure (record { token_id = token_id; to = to; amount = amount })

  instance abbrev pub mint_fungible_carbon : CarbonSerializable TxMsgMintFungible
  mint_fungible_carbon = record {
    write_carbon = write_mint_fungible;
    read_carbon = read_mint_fungible;
  }

pub record TxMsgBurnFungible : Type 0 where
  pub token_id : ℕ
  pub amount : IntX

module _ ⦃big : BigIntBytes⦄ where
  unfoldable pub write_burn_fungible : TxMsgBurnFungible → Put
  write_burn_fungible m = write8u m.token_id ▹ write_int_x m.amount

  unfoldable pub read_burn_fungible : Get TxMsgBurnFungible
  read_burn_fungible = do
    token_id ← read8u
    amount ← read_int_x
    pure (record { token_id = token_id; amount = amount })

  instance abbrev pub burn_fungible_carbon : CarbonSerializable TxMsgBurnFungible
  burn_fungible_carbon = record {
    write_carbon = write_burn_fungible;
    read_carbon = read_burn_fungible;
  }

pub record TxMsgBurnFungibleGasPayer : Type 0 where
  pub token_id : ℕ
  pub from_address : Bytes
  pub amount : IntX

module _ ⦃big : BigIntBytes⦄ where
  unfoldable pub write_burn_fungible_gas_payer : TxMsgBurnFungibleGasPayer → Put
  write_burn_fungible_gas_payer m =
      write8u m.token_id ▹ write32 m.from_address ▹ write_int_x m.amount

  unfoldable pub read_burn_fungible_gas_payer : Get TxMsgBurnFungibleGasPayer
  read_burn_fungible_gas_payer = do
    token_id ← read8u
    from_address ← read32
    amount ← read_int_x
    pure (record { token_id = token_id; from_address = from_address; amount = amount })

  instance abbrev pub burn_fungible_gas_payer_carbon : CarbonSerializable TxMsgBurnFungibleGasPayer
  burn_fungible_gas_payer_carbon = record {
    write_carbon = write_burn_fungible_gas_payer;
    read_carbon = read_burn_fungible_gas_payer;
  }
