-- ===== src/Carbon/Message/Kept.antt =====
-- What the bytes of a message of src/carbon.rs keep of it: the message itself, but for its calls.
use phantasma_sdk_rs.Prelude.{◌^◌, ◌<◌, ◌≡◌, ◌∙◌, refl, sym, length, InRange}
use phantasma_sdk_rs.BigInt.{BigIntBytes}
use phantasma_sdk_rs.Carbon.Wire.{half64}
use phantasma_sdk_rs.Carbon.SmallString.{IsSmall}
use phantasma_sdk_rs.Carbon.Payload.Call.Kept.{
  kept_call, TxMsgCallInRange, write_call-kept_call, kept_call-Fits, kept_multi,
  TxMsgCallMultiInRange, write_call_multi-kept_multi, kept_multi-Fits,
}
use phantasma_sdk_rs.Carbon.Message.{TxPayload, from_address, write_payload, TxMsg, write_tx_msg}
use phantasma_sdk_rs.Carbon.Message.Laws.{type_of, PayloadFits, TxMsgFits}

unfoldable pub kept_payload : TxPayload → TxPayload
kept_payload (TxPayload.call value) = TxPayload.call (kept_call value)
kept_payload (TxPayload.call_multi value) = TxPayload.call_multi (kept_multi value)
kept_payload p = p

unfoldable pub kept_msg : TxMsg → TxMsg
unfolding kept_payload
kept_msg m = record m { msg = kept_payload m.msg }

-- Calls of any kind, and other payloads in the ranges of what they hold.
abbrev pub PayloadInRange : TxPayload → Type 0
PayloadInRange (TxPayload.call value) = TxMsgCallInRange value
PayloadInRange (TxPayload.call_multi value) = TxMsgCallMultiInRange value
PayloadInRange p = PayloadFits p

-- The ranges of the field types, with arrays shorter than 2 ^ 31, amounts of type IntX that fit a
-- signed 256-bit word, and the type that names the payload.
pub record TxMsgInRange (m : TxMsg) : Type 0 where
  pub tx_type : m.tx_type ≡ type_of m.msg
  pub expiry : InRange half64 m.expiry
  pub max_gas : m.max_gas < 2 ^ 64
  pub max_data : m.max_data < 2 ^ 64
  pub gas_from : length m.gas_from ≡ 32
  pub payload : IsSmall m.payload
  pub msg : PayloadInRange m.msg

kept_payload-Fits : (p : TxPayload) → PayloadInRange p → PayloadFits (kept_payload p)
unfolding kept_payload
kept_payload-Fits (TxPayload.call value) h = kept_call-Fits value h
kept_payload-Fits (TxPayload.call_multi value) h = kept_multi-Fits value h
kept_payload-Fits (TxPayload.trade value) h = h
kept_payload-Fits (TxPayload.transfer_fungible value) h = h
kept_payload-Fits (TxPayload.transfer_fungible_gas_payer value) h = h
kept_payload-Fits (TxPayload.transfer_non_fungible_single value) h = h
kept_payload-Fits (TxPayload.transfer_non_fungible_single_gas_payer value) h = h
kept_payload-Fits (TxPayload.transfer_non_fungible_multi value) h = h
kept_payload-Fits (TxPayload.transfer_non_fungible_multi_gas_payer value) h = h
kept_payload-Fits (TxPayload.mint_fungible value) h = h
kept_payload-Fits (TxPayload.burn_fungible value) h = h
kept_payload-Fits (TxPayload.burn_fungible_gas_payer value) h = h
kept_payload-Fits (TxPayload.mint_non_fungible value) h = h
kept_payload-Fits (TxPayload.burn_non_fungible value) h = h
kept_payload-Fits (TxPayload.burn_non_fungible_gas_payer value) h = h
kept_payload-Fits (TxPayload.phantasma value) h = h
kept_payload-Fits (TxPayload.phantasma_raw value) h = h

type_of-kept_payload : (p : TxPayload) → type_of (kept_payload p) ≡ type_of p
unfolding kept_payload type_of
type_of-kept_payload (TxPayload.call value) = refl
type_of-kept_payload (TxPayload.call_multi value) = refl
type_of-kept_payload (TxPayload.trade value) = refl
type_of-kept_payload (TxPayload.transfer_fungible value) = refl
type_of-kept_payload (TxPayload.transfer_fungible_gas_payer value) = refl
type_of-kept_payload (TxPayload.transfer_non_fungible_single value) = refl
type_of-kept_payload (TxPayload.transfer_non_fungible_single_gas_payer value) = refl
type_of-kept_payload (TxPayload.transfer_non_fungible_multi value) = refl
type_of-kept_payload (TxPayload.transfer_non_fungible_multi_gas_payer value) = refl
type_of-kept_payload (TxPayload.mint_fungible value) = refl
type_of-kept_payload (TxPayload.burn_fungible value) = refl
type_of-kept_payload (TxPayload.burn_fungible_gas_payer value) = refl
type_of-kept_payload (TxPayload.mint_non_fungible value) = refl
type_of-kept_payload (TxPayload.burn_non_fungible value) = refl
type_of-kept_payload (TxPayload.burn_non_fungible_gas_payer value) = refl
type_of-kept_payload (TxPayload.phantasma value) = refl
type_of-kept_payload (TxPayload.phantasma_raw value) = refl

-- The owner that a message names is kept.
pub from_address-kept_payload : (p : TxPayload) → from_address (kept_payload p) ≡ from_address p
unfolding kept_payload from_address
from_address-kept_payload (TxPayload.call value) = refl
from_address-kept_payload (TxPayload.call_multi value) = refl
from_address-kept_payload (TxPayload.trade value) = refl
from_address-kept_payload (TxPayload.transfer_fungible value) = refl
from_address-kept_payload (TxPayload.transfer_fungible_gas_payer value) = refl
from_address-kept_payload (TxPayload.transfer_non_fungible_single value) = refl
from_address-kept_payload (TxPayload.transfer_non_fungible_single_gas_payer value) = refl
from_address-kept_payload (TxPayload.transfer_non_fungible_multi value) = refl
from_address-kept_payload (TxPayload.transfer_non_fungible_multi_gas_payer value) = refl
from_address-kept_payload (TxPayload.mint_fungible value) = refl
from_address-kept_payload (TxPayload.burn_fungible value) = refl
from_address-kept_payload (TxPayload.burn_fungible_gas_payer value) = refl
from_address-kept_payload (TxPayload.mint_non_fungible value) = refl
from_address-kept_payload (TxPayload.burn_non_fungible value) = refl
from_address-kept_payload (TxPayload.burn_non_fungible_gas_payer value) = refl
from_address-kept_payload (TxPayload.phantasma value) = refl
from_address-kept_payload (TxPayload.phantasma_raw value) = refl

pub kept_msg-Fits : (m : TxMsg) → TxMsgInRange m → TxMsgFits (kept_msg m)
unfolding kept_msg
kept_msg-Fits m h = record {
  tx_type = h.tx_type ∙ sym (type_of-kept_payload m.msg);
  expiry = h.expiry;
  max_gas = h.max_gas;
  max_data = h.max_data;
  gas_from = h.gas_from;
  payload = h.payload;
  msg = kept_payload-Fits m.msg h.msg;
}

module _ ⦃big : BigIntBytes⦄ where
  write_payload-kept_payload : (p : TxPayload) → write_payload (kept_payload p) ≡ write_payload p
  unfolding kept_payload write_payload
  write_payload-kept_payload (TxPayload.call value) = write_call-kept_call value
  write_payload-kept_payload (TxPayload.call_multi value) = write_call_multi-kept_multi value
  write_payload-kept_payload (TxPayload.trade value) = refl
  write_payload-kept_payload (TxPayload.transfer_fungible value) = refl
  write_payload-kept_payload (TxPayload.transfer_fungible_gas_payer value) = refl
  write_payload-kept_payload (TxPayload.transfer_non_fungible_single value) = refl
  write_payload-kept_payload (TxPayload.transfer_non_fungible_single_gas_payer value) = refl
  write_payload-kept_payload (TxPayload.transfer_non_fungible_multi value) = refl
  write_payload-kept_payload (TxPayload.transfer_non_fungible_multi_gas_payer value) = refl
  write_payload-kept_payload (TxPayload.mint_fungible value) = refl
  write_payload-kept_payload (TxPayload.burn_fungible value) = refl
  write_payload-kept_payload (TxPayload.burn_fungible_gas_payer value) = refl
  write_payload-kept_payload (TxPayload.mint_non_fungible value) = refl
  write_payload-kept_payload (TxPayload.burn_non_fungible value) = refl
  write_payload-kept_payload (TxPayload.burn_non_fungible_gas_payer value) = refl
  write_payload-kept_payload (TxPayload.phantasma value) = refl
  write_payload-kept_payload (TxPayload.phantasma_raw value) = refl

  -- A message and what is kept of it have the same bytes.
  pub write_tx_msg-kept_msg : (m : TxMsg) → write_tx_msg (kept_msg m) ≡ write_tx_msg m
  unfolding write_tx_msg kept_msg
  write_tx_msg-kept_msg m = rw (write_payload-kept_payload m.msg)
