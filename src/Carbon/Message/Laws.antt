-- ===== src/Carbon/Message/Laws.antt =====
-- Every transaction message whose type names its payload is read as it was written.
use phantasma_sdk_rs.Prelude.{◌^◌, ◌<◌, ◌≡◌, refl, arith, length, InRange, subst, sym}
use phantasma_sdk_rs.Stream.{pure}
use phantasma_sdk_rs.Stream.Codes.{Codes, Codes-bind, Codes-end, Codes-weaken, Codes-pure}
use phantasma_sdk_rs.BigInt.{BigIntBytes}
use phantasma_sdk_rs.Carbon.Wire.{half64}
use phantasma_sdk_rs.Carbon.Wire.Laws.{Codes-1, Codes-8, Codes-8u, Codes-32}
use phantasma_sdk_rs.Carbon.SmallString.{IsSmall, Codes-small_string}
use phantasma_sdk_rs.Carbon.Payload.Call.Laws.{
  TxMsgCallFits, Codes-call, TxMsgCallMultiFits, Codes-call_multi,
}
use phantasma_sdk_rs.Carbon.Payload.Trade.Laws.{TxMsgTradeFits, Codes-trade}
use phantasma_sdk_rs.Carbon.Payload.Fungible.Laws.{
  TxMsgTransferFungibleFits, Codes-transfer_fungible, TxMsgTransferFungibleGasPayerFits,
  Codes-transfer_fungible_gas_payer, TxMsgMintFungibleFits, Codes-mint_fungible,
  TxMsgBurnFungibleFits, Codes-burn_fungible, TxMsgBurnFungibleGasPayerFits,
  Codes-burn_fungible_gas_payer,
}
use phantasma_sdk_rs.Carbon.Payload.NonFungible.Laws.{
  TxMsgTransferNonFungibleSingleFits, Codes-transfer_non_fungible_single,
  TxMsgTransferNonFungibleSingleGasPayerFits, Codes-transfer_non_fungible_single_gas_payer,
  TxMsgTransferNonFungibleMultiFits, Codes-transfer_non_fungible_multi,
  TxMsgTransferNonFungibleMultiGasPayerFits, Codes-transfer_non_fungible_multi_gas_payer,
  TxMsgMintNonFungibleFits, Codes-mint_non_fungible, TxMsgBurnNonFungibleFits,
  Codes-burn_non_fungible, TxMsgBurnNonFungibleGasPayerFits, Codes-burn_non_fungible_gas_payer,
}
use phantasma_sdk_rs.Carbon.Payload.Script.Laws.{
  TxMsgPhantasmaFits, Codes-phantasma, TxMsgPhantasmaRawFits, Codes-phantasma_raw,
}
use phantasma_sdk_rs.Carbon.Message.{
  TxType, tx_type_code, try_from_code, TxPayload, write_payload, payload_from_type, TxMsg,
  write_tx_msg, read_tx_msg, tx_msg_carbon,
}

-- The type that a payload belongs to.
unfoldable pub type_of : TxPayload → TxType
type_of (TxPayload.call value) = TxType.call
type_of (TxPayload.call_multi value) = TxType.call_multi
type_of (TxPayload.trade value) = TxType.trade
type_of (TxPayload.transfer_fungible value) = TxType.transfer_fungible
type_of (TxPayload.transfer_fungible_gas_payer value) = TxType.transfer_fungible_gas_payer
type_of (TxPayload.transfer_non_fungible_single value) = TxType.transfer_non_fungible_single
type_of (TxPayload.transfer_non_fungible_single_gas_payer value) =
    TxType.transfer_non_fungible_single_gas_payer
type_of (TxPayload.transfer_non_fungible_multi value) = TxType.transfer_non_fungible_multi
type_of (TxPayload.transfer_non_fungible_multi_gas_payer value) =
    TxType.transfer_non_fungible_multi_gas_payer
type_of (TxPayload.mint_fungible value) = TxType.mint_fungible
type_of (TxPayload.burn_fungible value) = TxType.burn_fungible
type_of (TxPayload.burn_fungible_gas_payer value) = TxType.burn_fungible_gas_payer
type_of (TxPayload.mint_non_fungible value) = TxType.mint_non_fungible
type_of (TxPayload.burn_non_fungible value) = TxType.burn_non_fungible
type_of (TxPayload.burn_non_fungible_gas_payer value) = TxType.burn_non_fungible_gas_payer
type_of (TxPayload.phantasma value) = TxType.phantasma
type_of (TxPayload.phantasma_raw value) = TxType.phantasma_raw

abbrev pub PayloadFits : TxPayload → Type 0
PayloadFits (TxPayload.call value) = TxMsgCallFits value
PayloadFits (TxPayload.call_multi value) = TxMsgCallMultiFits value
PayloadFits (TxPayload.trade value) = TxMsgTradeFits value
PayloadFits (TxPayload.transfer_fungible value) = TxMsgTransferFungibleFits value
PayloadFits (TxPayload.transfer_fungible_gas_payer value) = TxMsgTransferFungibleGasPayerFits value
PayloadFits (TxPayload.transfer_non_fungible_single value) =
    TxMsgTransferNonFungibleSingleFits value
PayloadFits (TxPayload.transfer_non_fungible_single_gas_payer value) =
    TxMsgTransferNonFungibleSingleGasPayerFits value
PayloadFits (TxPayload.transfer_non_fungible_multi value) = TxMsgTransferNonFungibleMultiFits value
PayloadFits (TxPayload.transfer_non_fungible_multi_gas_payer value) =
    TxMsgTransferNonFungibleMultiGasPayerFits value
PayloadFits (TxPayload.mint_fungible value) = TxMsgMintFungibleFits value
PayloadFits (TxPayload.burn_fungible value) = TxMsgBurnFungibleFits value
PayloadFits (TxPayload.burn_fungible_gas_payer value) = TxMsgBurnFungibleGasPayerFits value
PayloadFits (TxPayload.mint_non_fungible value) = TxMsgMintNonFungibleFits value
PayloadFits (TxPayload.burn_non_fungible value) = TxMsgBurnNonFungibleFits value
PayloadFits (TxPayload.burn_non_fungible_gas_payer value) = TxMsgBurnNonFungibleGasPayerFits value
PayloadFits (TxPayload.phantasma value) = TxMsgPhantasmaFits value
PayloadFits (TxPayload.phantasma_raw value) = TxMsgPhantasmaRawFits value

-- A message in the ranges of its field types, with arrays shorter than 2 ^ 31 and amounts of type IntX
-- that fit a signed 256-bit word, of which the type names the payload and the calls are canonical.
pub record TxMsgFits (m : TxMsg) : Type 0 where
  pub tx_type : m.tx_type ≡ type_of m.msg
  pub expiry : InRange half64 m.expiry
  pub max_gas : m.max_gas < 2 ^ 64
  pub max_data : m.max_data < 2 ^ 64
  pub gas_from : length m.gas_from ≡ 32
  pub payload : IsSmall m.payload
  pub msg : PayloadFits m.msg

-- The number of every transaction type is read as that type.
pub try_from_code-tx_type_code : (t : TxType) → try_from_code (tx_type_code t) ≡ pure t
unfolding try_from_code tx_type_code
try_from_code-tx_type_code TxType.call = refl
try_from_code-tx_type_code TxType.call_multi = refl
try_from_code-tx_type_code TxType.trade = refl
try_from_code-tx_type_code TxType.transfer_fungible = refl
try_from_code-tx_type_code TxType.transfer_fungible_gas_payer = refl
try_from_code-tx_type_code TxType.transfer_non_fungible_single = refl
try_from_code-tx_type_code TxType.transfer_non_fungible_single_gas_payer = refl
try_from_code-tx_type_code TxType.transfer_non_fungible_multi = refl
try_from_code-tx_type_code TxType.transfer_non_fungible_multi_gas_payer = refl
try_from_code-tx_type_code TxType.mint_fungible = refl
try_from_code-tx_type_code TxType.burn_fungible = refl
try_from_code-tx_type_code TxType.burn_fungible_gas_payer = refl
try_from_code-tx_type_code TxType.mint_non_fungible = refl
try_from_code-tx_type_code TxType.burn_non_fungible = refl
try_from_code-tx_type_code TxType.burn_non_fungible_gas_payer = refl
try_from_code-tx_type_code TxType.phantasma = refl
try_from_code-tx_type_code TxType.phantasma_raw = refl

module _ ⦃big : BigIntBytes⦄ where
  pub Codes-payload :
      (p : TxPayload) → PayloadFits p → Codes 1 (write_payload p) (payload_from_type (type_of p)) p
  unfolding write_payload payload_from_type type_of
  Codes-payload (TxPayload.call value) h = Codes-end _ (Codes-call value h) refl
  Codes-payload (TxPayload.call_multi value) h = Codes-end _ (Codes-call_multi value h) refl
  Codes-payload (TxPayload.trade value) h = Codes-end _ (Codes-trade value h) refl
  Codes-payload (TxPayload.transfer_fungible value) h =
      Codes-end _ (Codes-transfer_fungible value h) refl
  Codes-payload (TxPayload.transfer_fungible_gas_payer value) h =
      Codes-end _ (Codes-transfer_fungible_gas_payer value h) refl
  Codes-payload (TxPayload.transfer_non_fungible_single value) h =
      Codes-end _ (Codes-transfer_non_fungible_single value h) refl
  Codes-payload (TxPayload.transfer_non_fungible_single_gas_payer value) h =
      Codes-end _ (Codes-transfer_non_fungible_single_gas_payer value h) refl
  Codes-payload (TxPayload.transfer_non_fungible_multi value) h =
      Codes-end _ (Codes-transfer_non_fungible_multi value h) refl
  Codes-payload (TxPayload.transfer_non_fungible_multi_gas_payer value) h =
      Codes-end _ (Codes-transfer_non_fungible_multi_gas_payer value h) refl
  Codes-payload (TxPayload.mint_fungible value) h = Codes-end _ (Codes-mint_fungible value h) refl
  Codes-payload (TxPayload.burn_fungible value) h = Codes-end _ (Codes-burn_fungible value h) refl
  Codes-payload (TxPayload.burn_fungible_gas_payer value) h =
      Codes-end _ (Codes-burn_fungible_gas_payer value h) refl
  Codes-payload (TxPayload.mint_non_fungible value) h =
      Codes-end _ (Codes-mint_non_fungible value h) refl
  Codes-payload (TxPayload.burn_non_fungible value) h =
      Codes-end _ (Codes-burn_non_fungible value h) refl
  Codes-payload (TxPayload.burn_non_fungible_gas_payer value) h =
      Codes-end _ (Codes-burn_non_fungible_gas_payer value h) refl
  Codes-payload (TxPayload.phantasma value) h = Codes-end _ (Codes-phantasma value h) refl
  Codes-payload (TxPayload.phantasma_raw value) h = Codes-end _ (Codes-phantasma_raw value h) refl

  pub Codes-tx_msg : (m : TxMsg) → TxMsgFits m → Codes 1 (write_tx_msg m) read_tx_msg m
  unfolding write_tx_msg read_tx_msg
  Codes-tx_msg m h =
      let payload : Codes 1 (write_payload m.msg) (payload_from_type m.tx_type) m.msg =
        subst (λ t. Codes 1 (write_payload m.msg) (payload_from_type t) m.msg) (sym h.tx_type)
          (Codes-payload m.msg h.msg) in
      Codes-weaken 1 (omega arith) (
        Codes-bind _ (Codes-1 (tx_type_code m.tx_type)) (
          Codes-pure _ _ (try_from_code-tx_type_code m.tx_type) (
            Codes-bind _ (Codes-8 m.expiry h.expiry) (
              Codes-bind _ (Codes-8u m.max_gas h.max_gas) (
                Codes-bind _ (Codes-8u m.max_data h.max_data) (
                  Codes-bind _ (Codes-32 m.gas_from h.gas_from) (
                    Codes-bind _ (Codes-small_string m.payload h.payload)
                      (Codes-end _ payload refl))))))))
