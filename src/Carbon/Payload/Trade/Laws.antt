-- ===== src/Carbon/Payload/Trade/Laws.antt =====
-- The ranges of the fields, and that every message of Trade in range is read as it was written.
use phantasma_sdk_rs.Prelude.{◌<◌, refl, arith, length, All, All-map}
use phantasma_sdk_rs.BigInt.{BigIntBytes}
use phantasma_sdk_rs.Carbon.Wire.{half32}
use phantasma_sdk_rs.Stream.Codes.{Codes, Codes-bind, Codes-end, Codes-weaken}
use phantasma_sdk_rs.Carbon.Wire.Laws.{Codes-carbon_array}
use phantasma_sdk_rs.Carbon.Payload.Trade.{TxMsgTrade, write_trade, read_trade, trade_carbon}
use phantasma_sdk_rs.Carbon.Payload.Fungible.{
  transfer_fungible_gas_payer_carbon, mint_fungible_carbon, burn_fungible_gas_payer_carbon,
}
use phantasma_sdk_rs.Carbon.Payload.NonFungible.{
  transfer_non_fungible_single_gas_payer_carbon, mint_non_fungible_carbon,
  burn_non_fungible_gas_payer_carbon,
}
use phantasma_sdk_rs.Carbon.Payload.Fungible.Laws.{
  TxMsgTransferFungibleGasPayerFits, TxMsgMintFungibleFits, TxMsgBurnFungibleGasPayerFits,
  Codes-transfer_fungible_gas_payer, Codes-mint_fungible, Codes-burn_fungible_gas_payer,
}
use phantasma_sdk_rs.Carbon.Payload.NonFungible.Laws.{
  TxMsgTransferNonFungibleSingleGasPayerFits, TxMsgMintNonFungibleFits,
  TxMsgBurnNonFungibleGasPayerFits, Codes-transfer_non_fungible_single_gas_payer,
  Codes-mint_non_fungible, Codes-burn_non_fungible_gas_payer,
}

-- The ranges of the field types of TxMsgTrade, with arrays shorter than 2 ^ 31.
pub record TxMsgTradeFits (m : TxMsgTrade) : Type 0 where
  pub transfer_f_short : length m.transfer_f < half32
  pub transfer_f : All TxMsgTransferFungibleGasPayerFits m.transfer_f
  pub transfer_n_short : length m.transfer_n < half32
  pub transfer_n : All TxMsgTransferNonFungibleSingleGasPayerFits m.transfer_n
  pub mint_f_short : length m.mint_f < half32
  pub mint_f : All TxMsgMintFungibleFits m.mint_f
  pub burn_f_short : length m.burn_f < half32
  pub burn_f : All TxMsgBurnFungibleGasPayerFits m.burn_f
  pub mint_n_short : length m.mint_n < half32
  pub mint_n : All TxMsgMintNonFungibleFits m.mint_n
  pub burn_n_short : length m.burn_n < half32
  pub burn_n : All TxMsgBurnNonFungibleGasPayerFits m.burn_n

module _ ⦃big : BigIntBytes⦄ where
  pub Codes-trade : (m : TxMsgTrade) → TxMsgTradeFits m → Codes 1 (write_trade m) read_trade m
  unfolding write_trade read_trade
  Codes-trade m h = Codes-weaken 1 (omega arith) (
      Codes-bind _
        (Codes-carbon_array m.transfer_f h.transfer_f_short
          (All-map Codes-transfer_fungible_gas_payer m.transfer_f h.transfer_f))
        (Codes-bind _
          (Codes-carbon_array m.transfer_n h.transfer_n_short
            (All-map Codes-transfer_non_fungible_single_gas_payer m.transfer_n h.transfer_n))
          (Codes-bind _
            (Codes-carbon_array m.mint_f h.mint_f_short
              (All-map Codes-mint_fungible m.mint_f h.mint_f))
            (Codes-bind _
              (Codes-carbon_array m.burn_f h.burn_f_short
                (All-map Codes-burn_fungible_gas_payer m.burn_f h.burn_f))
              (Codes-bind _
                (Codes-carbon_array m.mint_n h.mint_n_short
                  (All-map Codes-mint_non_fungible m.mint_n h.mint_n))
                (Codes-end _
                  (Codes-carbon_array m.burn_n h.burn_n_short
                    (All-map Codes-burn_non_fungible_gas_payer m.burn_n h.burn_n))
                  refl))))))
