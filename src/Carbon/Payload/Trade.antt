-- ===== src/Carbon/Payload/Trade.antt =====
-- TxMsgTrade of src/carbon.rs: several transfers, mints and burns in one message.
pub mod Laws
use phantasma_sdk_rs.Prelude.{
  ℕ, ◌+◌, ◌^◌, ◌≤◌, ◌<◌, ◌≡◌, refl, arith, List, [], ◌∷◌, length, All, ℤ, pos, negsuc, InRange,
  Bool, true, false, if◌then◌else◌, ltb, All-map,
}
use phantasma_sdk_rs.Error.{Result, ok, err, serialization}
use phantasma_sdk_rs.Stream.{Bytes, Put, Get, ◌▹◌, pure, ◌>>=◌}
use phantasma_sdk_rs.BigInt.{BigIntBytes}
use phantasma_sdk_rs.Carbon.Wire.{
  CarbonSerializable, half32, half64, write1, write4, write8, write4u, write8u, write32, write64,
  write_byte_array, write_u64_array, write_carbon_array, read1, read4, read8, read4u, read8u,
  read32, read64, read_byte_array, read_u64_array, read_carbon_array,
}
use phantasma_sdk_rs.Carbon.SmallString.{
  SmallString, write_small_string, read_small_string, IsSmall, Codes-small_string,
}
use phantasma_sdk_rs.Carbon.IntX.{IntX, write_int_x, read_int_x}
use phantasma_sdk_rs.Carbon.Payload.Fungible.{
  TxMsgTransferFungibleGasPayer, TxMsgMintFungible, TxMsgBurnFungibleGasPayer,
  transfer_fungible_gas_payer_carbon, mint_fungible_carbon, burn_fungible_gas_payer_carbon,
}
use phantasma_sdk_rs.Carbon.Payload.NonFungible.{
  TxMsgTransferNonFungibleSingleGasPayer, TxMsgMintNonFungible, TxMsgBurnNonFungibleGasPayer,
  transfer_non_fungible_single_gas_payer_carbon, mint_non_fungible_carbon,
  burn_non_fungible_gas_payer_carbon,
}

pub record TxMsgTrade : Type 0 where
  pub transfer_f : List TxMsgTransferFungibleGasPayer
  pub transfer_n : List TxMsgTransferNonFungibleSingleGasPayer
  pub mint_f : List TxMsgMintFungible
  pub burn_f : List TxMsgBurnFungibleGasPayer
  pub mint_n : List TxMsgMintNonFungible
  pub burn_n : List TxMsgBurnNonFungibleGasPayer

module _ ⦃big : BigIntBytes⦄ where
  unfoldable pub write_trade : TxMsgTrade → Put
  write_trade m =
      write_carbon_array m.transfer_f
      ▹ write_carbon_array m.transfer_n
      ▹ write_carbon_array m.mint_f
      ▹ write_carbon_array m.burn_f
      ▹ write_carbon_array m.mint_n
      ▹ write_carbon_array m.burn_n

  unfoldable pub read_trade : Get TxMsgTrade
  read_trade = do
    transfer_f ← read_carbon_array
    transfer_n ← read_carbon_array
    mint_f ← read_carbon_array
    burn_f ← read_carbon_array
    mint_n ← read_carbon_array
    burn_n ← read_carbon_array
    pure (record {
      transfer_f = transfer_f;
      transfer_n = transfer_n;
      mint_f = mint_f;
      burn_f = burn_f;
      mint_n = mint_n;
      burn_n = burn_n;
    })

  instance abbrev pub trade_carbon : CarbonSerializable TxMsgTrade
  trade_carbon = record { write_carbon = write_trade; read_carbon = read_trade }
