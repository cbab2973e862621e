-- ===== src/Carbon/Payload/NonFungible/Laws.antt =====
-- The ranges of the fields, and that every message of NonFungible in range is read as it was written.
use phantasma_sdk_rs.Prelude.{◌^◌, ◌<◌, ◌≡◌, refl, arith, length, All}
use phantasma_sdk_rs.Carbon.Wire.{half32}
use phantasma_sdk_rs.Stream.Codes.{Codes, Codes-bind, Codes-end, Codes-weaken}
use phantasma_sdk_rs.Carbon.Wire.Laws.{
  Codes-4u, Codes-8u, Codes-32, Codes-byte_array, Codes-u64_array,
}
use phantasma_sdk_rs.Carbon.Payload.NonFungible.{
  TxMsgTransferNonFungibleSingle, write_transfer_non_fungible_single,
  read_transfer_non_fungible_single, transfer_non_fungible_single_carbon,
  TxMsgTransferNonFungibleSingleGasPayer, write_transfer_non_fungible_single_gas_payer,
  read_transfer_non_fungible_single_gas_payer, transfer_non_fungible_single_gas_payer_carbon,
  TxMsgTransferNonFungibleMulti, write_transfer_non_fungible_multi,
  read_transfer_non_fungible_multi, transfer_non_fungible_multi_carbon,
  TxMsgTransferNonFungibleMultiGasPayer, write_transfer_non_fungible_multi_gas_payer,
  read_transfer_non_fungible_multi_gas_payer, transfer_non_fungible_multi_gas_payer_carbon,
  TxMsgMintNonFungible, write_mint_non_fungible, read_mint_non_fungible, mint_non_fungible_carbon,
  TxMsgBurnNonFungible, write_burn_non_fungible, read_burn_non_fungible, burn_non_fungible_carbon,
  TxMsgBurnNonFungibleGasPayer, write_burn_non_fungible_gas_payer, read_burn_non_fungible_gas_payer,
  burn_non_fungible_gas_payer_carbon,
}

-- The ranges of the field types of TxMsgTransferNonFungibleSingle.
pub record TxMsgTransferNonFungibleSingleFits (m : TxMsgTransferNonFungibleSingle) : Type 0 where
  pub to : length m.to ≡ 32
  pub token_id : m.token_id < 2 ^ 64
  pub instance_id : m.instance_id < 2 ^ 64

pub Codes-transfer_non_fungible_single :
    (m : TxMsgTransferNonFungibleSingle)
    → TxMsgTransferNonFungibleSingleFits m
    → Codes 1 (write_transfer_non_fungible_single m) read_transfer_non_fungible_single m
unfolding write_transfer_non_fungible_single read_transfer_non_fungible_single
Codes-transfer_non_fungible_single m h = Codes-weaken 1 (omega arith) (
    Codes-bind _ (Codes-32 m.to h.to) (
      Codes-bind _ (Codes-8u m.token_id h.token_id)
        (Codes-end _ (Codes-8u m.instance_id h.instance_id) refl)))

-- The ranges of the field types of TxMsgTransferNonFungibleSingleGasPayer.
pub record TxMsgTransferNonFungibleSingleGasPayerFits (m : TxMsgTransferNonFungibleSingleGasPayer)
    : Type 0 where
  pub to : length m.to ≡ 32
  pub from_address : length m.from_address ≡ 32
  pub token_id : m.token_id < 2 ^ 64
  pub instance_id : m.instance_id < 2 ^ 64

pub Codes-transfer_non_fungible_single_gas_payer :
    (m : TxMsgTransferNonFungibleSingleGasPayer)
    → TxMsgTransferNonFungibleSingleGasPayerFits m
    → Codes 1
        (write_transfer_non_fungible_single_gas_payer m)
        read_transfer_non_fungible_single_gas_payer
        m
unfolding write_transfer_non_fungible_single_gas_payer read_transfer_non_fungible_single_gas_payer
Codes-transfer_non_fungible_single_gas_payer m h = Codes-weaken 1 (omega arith) (
    Codes-bind _ (Codes-32 m.to h.to) (
      Codes-bind _ (Codes-32 m.from_address h.from_address) (
        Codes-bind _ (Codes-8u m.token_id h.token_id)
          (Codes-end _ (Codes-8u m.instance_id h.instance_id) refl))))

-- The ranges of the field types of TxMsgTransferNonFungibleMulti, with arrays shorter than 2 ^ 31.
pub record TxMsgTransferNonFungibleMultiFits (m : TxMsgTransferNonFungibleMulti) : Type 0 where
  pub to : length m.to ≡ 32
  pub token_id : m.token_id < 2 ^ 64
  pub instance_ids_short : length m.instance_ids < half32
  pub instance_ids : All (λ id. id < 2 ^ 64) m.instance_ids

pub Codes-transfer_non_fungible_multi :
    (m : TxMsgTransferNonFungibleMulti)
    → TxMsgTransferNonFungibleMultiFits m
    → Codes 1 (write_transfer_non_fungible_multi m) read_transfer_non_fungible_multi m
unfolding write_transfer_non_fungible_multi read_transfer_non_fungible_multi
Codes-transfer_non_fungible_multi m h = Codes-weaken 1 (omega arith) (
    Codes-bind _ (Codes-32 m.to h.to) (
      Codes-bind _ (Codes-8u m.token_id h.token_id)
        (Codes-end _ (Codes-u64_array m.instance_ids h.instance_ids_short h.instance_ids) refl)))

-- The ranges of the field types of TxMsgTransferNonFungibleMultiGasPayer, with arrays shorter than 2 ^ 31.
pub record TxMsgTransferNonFungibleMultiGasPayerFits (m : TxMsgTransferNonFungibleMultiGasPayer)
    : Type 0 where
  pub to : length m.to ≡ 32
  pub from_address : length m.from_address ≡ 32
  pub token_id : m.token_id < 2 ^ 64
  pub instance_ids_short : length m.instance_ids < half32
  pub instance_ids : All (λ id. id < 2 ^ 64) m.instance_ids

pub Codes-transfer_non_fungible_multi_gas_payer :
    (m : TxMsgTransferNonFungibleMultiGasPayer)
    → TxMsgTransferNonFungibleMultiGasPayerFits m
    → Codes 1
        (write_transfer_non_fungible_multi_gas_payer m)
        read_transfer_non_fungible_multi_gas_payer
        m
unfolding write_transfer_non_fungible_multi_gas_payer read_transfer_non_fungible_multi_gas_payer
Codes-transfer_non_fungible_multi_gas_payer m h = Codes-weaken 1 (omega arith) (
    Codes-bind _ (Codes-32 m.to h.to) (
      Codes-bind _ (Codes-32 m.from_address h.from_address) (
        Codes-bind _ (Codes-8u m.token_id h.token_id)
          (Codes-end _ (Codes-u64_array m.instance_ids h.instance_ids_short h.instance_ids) refl))))

-- The ranges of the field types of TxMsgMintNonFungible, with arrays shorter than 2 ^ 31.
pub record TxMsgMintNonFungibleFits (m : TxMsgMintNonFungible) : Type 0 where
  pub token_id : m.token_id < 2 ^ 64
  pub to : length m.to ≡ 32
  pub series_id : m.series_id < 2 ^ 32
  pub rom : length m.rom < half32
  pub ram : length m.ram < half32

pub Codes-mint_non_fungible :
    (m : TxMsgMintNonFungible)
    → TxMsgMintNonFungibleFits m
    → Codes 1 (write_mint_non_fungible m) read_mint_non_fungible m
unfolding write_mint_non_fungible read_mint_non_fungible
Codes-mint_non_fungible m h = Codes-weaken 1 (omega arith) (
    Codes-bind _ (Codes-8u m.token_id h.token_id) (
      Codes-bind _ (Codes-32 m.to h.to) (
        Codes-bind _ (Codes-4u m.series_id h.series_id) (
          Codes-bind _ (Codes-byte_array m.rom h.rom)
            (Codes-end _ (Codes-byte_array m.ram h.ram) refl)))))

-- The ranges of the field types of TxMsgBurnNonFungible.
pub record TxMsgBurnNonFungibleFits (m : TxMsgBurnNonFungible) : Type 0 where
  pub token_id : m.token_id < 2 ^ 64
  pub instance_id : m.instance_id < 2 ^ 64

pub Codes-burn_non_fungible :
    (m : TxMsgBurnNonFungible)
    → TxMsgBurnNonFungibleFits m
    → Codes 1 (write_burn_non_fungible m) read_burn_non_fungible m
unfolding write_burn_non_fungible read_burn_non_fungible
Codes-burn_non_fungible m h = Codes-weaken 1 (omega arith) (
    Codes-bind _ (Codes-8u m.token_id h.token_id)
      (Codes-end _ (Codes-8u m.instance_id h.instance_id) refl))

-- The ranges of the field types of TxMsgBurnNonFungibleGasPayer.
pub record TxMsgBurnNonFungibleGasPayerFits (m : TxMsgBurnNonFungibleGasPayer) : Type 0 where
  pub token_id : m.token_id < 2 ^ 64
  pub from_address : length m.from_address ≡ 32
  pub instance_id : m.instance_id < 2 ^ 64

pub Codes-burn_non_fungible_gas_payer :
    (m : TxMsgBurnNonFungibleGasPayer)
    → TxMsgBurnNonFungibleGasPayerFits m
    → Codes 1 (write_burn_non_fungible_gas_payer m) read_burn_non_fungible_gas_payer m
unfolding write_burn_non_fungible_gas_payer read_burn_non_fungible_gas_payer
Codes-burn_non_fungible_gas_payer m h = Codes-weaken 1 (omega arith) (
    Codes-bind _ (Codes-8u m.token_id h.token_id) (
      Codes-bind _ (Codes-32 m.from_address h.from_address)
        (Codes-end _ (Codes-8u m.instance_id h.instance_id) refl)))
