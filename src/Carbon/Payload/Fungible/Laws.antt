-- ===== src/Carbon/Payload/Fungible/Laws.antt =====
-- The ranges of the fields, and that every message of Fungible in range is read as it was written.
use phantasma_sdk_rs.Prelude.{◌^◌, ◌<◌, ◌≡◌, refl, arith, length}
use phantasma_sdk_rs.BigInt.{BigIntBytes}
use phantasma_sdk_rs.Stream.Codes.{Codes, Codes-bind, Codes-end, Codes-weaken}
use phantasma_sdk_rs.Carbon.IntX.Short.{InWord, Codes-int_x}
use phantasma_sdk_rs.Carbon.Wire.Laws.{Codes-8u, Codes-32}
use phantasma_sdk_rs.Carbon.Payload.Fungible.{
  TxMsgTransferFungible, write_transfer_fungible, read_transfer_fungible, transfer_fungible_carbon,
  TxMsgTransferFungibleGasPayer, write_transfer_fungible_gas_payer,
  read_transfer_fungible_gas_payer, transfer_fungible_gas_payer_carbon, TxMsgMintFungible,
  write_mint_fungible, read_mint_fungible, mint_fungible_carbon, TxMsgBurnFungible,
  write_burn_fungible, read_burn_fungible, burn_fungible_carbon, TxMsgBurnFungibleGasPayer,
  write_burn_fungible_gas_payer, read_burn_fungible_gas_payer, burn_fungible_gas_payer_carbon,
}

-- The ranges of the field types of TxMsgTransferFungible.
pub record TxMsgTransferFungibleFits (m : TxMsgTransferFungible) : Type 0 where
  pub to : length m.to ≡ 32
  pub token_id : m.token_id < 2 ^ 64
  pub amount : m.amount < 2 ^ 64

pub Codes-transfer_fungible :
    (m : TxMsgTransferFungible)
    → TxMsgTransferFungibleFits m
    → Codes 1 (write_transfer_fungible m) read_transfer_fungible m
unfolding write_transfer_fungible read_transfer_fungible
Codes-transfer_fungible m h = Codes-weaken 1 (omega arith) (
    Codes-bind _ (Codes-32 m.to h.to) (
      Codes-bind _ (Codes-8u m.token_id h.token_id)
        (Codes-end _ (Codes-8u m.amount h.amount) refl)))

-- The ranges of the field types of TxMsgTransferFungibleGasPayer.
pub record TxMsgTransferFungibleGasPayerFits (m : TxMsgTransferFungibleGasPayer) : Type 0 where
  pub to : length m.to ≡ 32
  pub from_address : length m.from_address ≡ 32
  pub token_id : m.token_id < 2 ^ 64
  pub amount : m.amount < 2 ^ 64

pub Codes-transfer_fungible_gas_payer :
    (m : TxMsgTransferFungibleGasPayer)
    → TxMsgTransferFungibleGasPayerFits m
    → Codes 1 (write_transfer_fungible_gas_payer m) read_transfer_fungible_gas_payer m
unfolding write_transfer_fungible_gas_payer read_transfer_fungible_gas_payer
Codes-transfer_fungible_gas_payer m h = Codes-weaken 1 (omega arith) (
    Codes-bind _ (Codes-32 m.to h.to) (
      Codes-bind _ (Codes-32 m.from_address h.from_address) (
        Codes-bind _ (Codes-8u m.token_id h.token_id)
          (Codes-end _ (Codes-8u m.amount h.amount) refl))))

-- The ranges of the field types of TxMsgMintFungible, with arrays shorter than 2 ^ 31.
pub record TxMsgMintFungibleFits (m : TxMsgMintFungible) : Type 0 where
  pub token_id : m.token_id < 2 ^ 64
  pub to : length m.to ≡ 32
  pub amount : InWord m.amount

module _ ⦃big : BigIntBytes⦄ where
  pub Codes-mint_fungible :
      (m : TxMsgMintFungible)
      → TxMsgMintFungibleFits m
      → Codes 1 (write_mint_fungible m) read_mint_fungible m
  unfolding write_mint_fungible read_mint_fungible
  Codes-mint_fungible m h = Codes-weaken 1 (omega arith) (
      Codes-bind _ (Codes-8u m.token_id h.token_id)
        (Codes-bind _ (Codes-32 m.to h.to) (Codes-end _ (Codes-int_x m.amount h.amount) refl)))

-- The ranges of the field types of TxMsgBurnFungible, with arrays shorter than 2 ^ 31.
pub record TxMsgBurnFungibleFits (m : TxMsgBurnFungible) : Type 0 where
  pub token_id : m.token_id < 2 ^ 64
  pub amount : InWord m.amount

module _ ⦃big : BigIntBytes⦄ where
  pub Codes-burn_fungible :
      (m : TxMsgBurnFungible)
      → TxMsgBurnFungibleFits m
      → Codes 1 (write_burn_fungible m) read_burn_fungible m
  unfolding write_burn_fungible read_burn_fungible
  Codes-burn_fungible m h = Codes-weaken 1 (omega arith) (
      Codes-bind _ (Codes-8u m.token_id h.token_id)
        (Codes-end _ (Codes-int_x m.amount h.amount) refl))

-- The ranges of the field types of TxMsgBurnFungibleGasPayer, with arrays shorter than 2 ^ 31.
pub record TxMsgBurnFungibleGasPayerFits (m : TxMsgBurnFungibleGasPayer) : Type 0 where
  pub token_id : m.token_id < 2 ^ 64
  pub from_address : length m.from_address ≡ 32
  pub amount : InWord m.amount

module _ ⦃big : BigIntBytes⦄ where
  pub Codes-burn_fungible_gas_payer :
      (m : TxMsgBurnFungibleGasPayer)
      → TxMsgBurnFungibleGasPayerFits m
      → Codes 1 (write_burn_fungible_gas_payer m) read_burn_fungible_gas_payer m
  unfolding write_burn_fungible_gas_payer read_burn_fungible_gas_payer
  Codes-burn_fungible_gas_payer m h = Codes-weaken 1 (omega arith) (
      Codes-bind _ (Codes-8u m.token_id h.token_id) (
        Codes-bind _ (Codes-32 m.from_address h.from_address)
          (Codes-end _ (Codes-int_x m.amount h.amount) refl)))
