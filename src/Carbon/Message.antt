-- ===== src/Carbon/Message.antt =====
-- TxType, TxPayload and TxMsg of src/carbon.rs: a transaction message with its kind.
pub mod Laws
pub mod Kept
use phantasma_sdk_rs.Prelude.{ℕ, zero, suc, ◌^◌, ◌<◌, ℤ, List, [], ◌∷◌, replicate, ◌+◌}
use phantasma_sdk_rs.Error.{serialization}
use phantasma_sdk_rs.Stream.{Bytes, Put, Get, ◌▹◌, pure, fail, ◌>>=◌}
use phantasma_sdk_rs.BigInt.{BigIntBytes}
use phantasma_sdk_rs.Carbon.Wire.{
  CarbonSerializable, write1, write8, write8u, write32, read1, read8, read8u, read32,
}
use phantasma_sdk_rs.Carbon.SmallString.{SmallString, write_small_string, read_small_string}
use phantasma_sdk_rs.Carbon.Payload.Call.{
  TxMsgCall, write_call, read_call, TxMsgCallMulti, write_call_multi, read_call_multi,
}
use phantasma_sdk_rs.Carbon.Payload.Trade.{TxMsgTrade, write_trade, read_trade}
use phantasma_sdk_rs.Carbon.Payload.Fungible.{
  TxMsgTransferFungible, write_transfer_fungible, read_transfer_fungible,
  TxMsgTransferFungibleGasPayer, write_transfer_fungible_gas_payer,
  read_transfer_fungible_gas_payer, TxMsgMintFungible, write_mint_fungible, read_mint_fungible,
  TxMsgBurnFungible, write_burn_fungible, read_burn_fungible, TxMsgBurnFungibleGasPayer,
  write_burn_fungible_gas_payer, read_burn_fungible_gas_payer,
}
use phantasma_sdk_rs.Carbon.Payload.NonFungible.{
  TxMsgTransferNonFungibleSingle, write_transfer_non_fungible_single,
  read_transfer_non_fungible_single, TxMsgTransferNonFungibleSingleGasPayer,
  write_transfer_non_fungible_single_gas_payer, read_transfer_non_fungible_single_gas_payer,
  TxMsgTransferNonFungibleMulti, write_transfer_non_fungible_multi,
  read_transfer_non_fungible_multi, TxMsgTransferNonFungibleMultiGasPayer,
  write_transfer_non_fungible_multi_gas_payer, read_transfer_non_fungible_multi_gas_payer,
  TxMsgMintNonFungible, write_mint_non_fungible, read_mint_non_fungible, TxMsgBurnNonFungible,
  write_burn_non_fungible, read_burn_non_fungible, TxMsgBurnNonFungibleGasPayer,
  write_burn_non_fungible_gas_payer, read_burn_non_fungible_gas_payer,
}
use phantasma_sdk_rs.Carbon.Payload.Script.{
  TxMsgPhantasma, write_phantasma, read_phantasma, TxMsgPhantasmaRaw, write_phantasma_raw,
  read_phantasma_raw,
}

pub data TxType : Type 0 where
  call : TxType
  call_multi : TxType
  trade : TxType
  transfer_fungible : TxType
  transfer_fungible_gas_payer : TxType
  transfer_non_fungible_single : TxType
  transfer_non_fungible_single_gas_payer : TxType
  transfer_non_fungible_multi : TxType
  transfer_non_fungible_multi_gas_payer : TxType
  mint_fungible : TxType
  burn_fungible : TxType
  burn_fungible_gas_payer : TxType
  mint_non_fungible : TxType
  burn_non_fungible : TxType
  burn_non_fungible_gas_payer : TxType
  phantasma : TxType
  phantasma_raw : TxType

-- The discriminants of the enum.
unfoldable pub tx_type_code : TxType → ℕ
tx_type_code TxType.call = 0
tx_type_code TxType.call_multi = 1
tx_type_code TxType.trade = 2
tx_type_code TxType.transfer_fungible = 3
tx_type_code TxType.transfer_fungible_gas_payer = 4
tx_type_code TxType.transfer_non_fungible_single = 5
tx_type_code TxType.transfer_non_fungible_single_gas_payer = 6
tx_type_code TxType.transfer_non_fungible_multi = 7
tx_type_code TxType.transfer_non_fungible_multi_gas_payer = 8
tx_type_code TxType.mint_fungible = 9
tx_type_code TxType.burn_fungible = 10
tx_type_code TxType.burn_fungible_gas_payer = 11
tx_type_code TxType.mint_non_fungible = 12
tx_type_code TxType.burn_non_fungible = 13
tx_type_code TxType.burn_non_fungible_gas_payer = 14
tx_type_code TxType.phantasma = 15
tx_type_code TxType.phantasma_raw = 16

unfoldable pub try_from_code : ℕ → Get TxType
try_from_code zero = pure TxType.call
try_from_code (suc zero) = pure TxType.call_multi
try_from_code (suc (suc zero)) = pure TxType.trade
try_from_code (suc (suc (suc zero))) = pure TxType.transfer_fungible
try_from_code (suc (suc (suc (suc zero)))) = pure TxType.transfer_fungible_gas_payer
try_from_code (suc (suc (suc (suc (suc zero))))) = pure TxType.transfer_non_fungible_single
try_from_code (suc (suc (suc (suc (suc (suc zero)))))) =
    pure TxType.transfer_non_fungible_single_gas_payer
try_from_code (suc (suc (suc (suc (suc (suc (suc zero))))))) =
    pure TxType.transfer_non_fungible_multi
try_from_code (suc (suc (suc (suc (suc (suc (suc (suc zero)))))))) =
    pure TxType.transfer_non_fungible_multi_gas_payer
try_from_code (suc (suc (suc (suc (suc (suc (suc (suc (suc zero))))))))) = pure TxType.mint_fungible
try_from_code (suc (suc (suc (suc (suc (suc (suc (suc (suc (suc zero)))))))))) =
    pure TxType.burn_fungible
try_from_code (suc (suc (suc (suc (suc (suc (suc (suc (suc (suc (suc zero))))))))))) =
    pure TxType.burn_fungible_gas_payer
try_from_code (suc (suc (suc (suc (suc (suc (suc (suc (suc (suc (suc (suc zero)))))))))))) =
    pure TxType.mint_non_fungible
try_from_code (suc (suc (suc (suc (suc (suc (suc (suc (suc (suc (suc (suc (suc zero))))))))))))) =
    pure TxType.burn_non_fungible
try_from_code
      (suc (suc (suc (suc (suc (suc (suc (suc (suc (suc (suc (suc (suc (suc zero)))))))))))))) =
    pure TxType.burn_non_fungible_gas_payer
try_from_code
      (suc
        (suc (suc (suc (suc (suc (suc (suc (suc (suc (suc (suc (suc (suc (suc zero))))))))))))))) =
    pure TxType.phantasma
try_from_code
      (suc (
        suc (
          suc
            (suc (suc (suc (suc (suc (suc (suc (suc (suc (suc (suc (suc (suc zero)))))))))))))))) =
    pure TxType.phantasma_raw
try_from_code _ = fail (serialization "unsupported transaction type")

pub data TxPayload : Type 0 where
  call : TxMsgCall → TxPayload
  call_multi : TxMsgCallMulti → TxPayload
  trade : TxMsgTrade → TxPayload
  transfer_fungible : TxMsgTransferFungible → TxPayload
  transfer_fungible_gas_payer : TxMsgTransferFungibleGasPayer → TxPayload
  transfer_non_fungible_single : TxMsgTransferNonFungibleSingle → TxPayload
  transfer_non_fungible_single_gas_payer : TxMsgTransferNonFungibleSingleGasPayer → TxPayload
  transfer_non_fungible_multi : TxMsgTransferNonFungibleMulti → TxPayload
  transfer_non_fungible_multi_gas_payer : TxMsgTransferNonFungibleMultiGasPayer → TxPayload
  mint_fungible : TxMsgMintFungible → TxPayload
  burn_fungible : TxMsgBurnFungible → TxPayload
  burn_fungible_gas_payer : TxMsgBurnFungibleGasPayer → TxPayload
  mint_non_fungible : TxMsgMintNonFungible → TxPayload
  burn_non_fungible : TxMsgBurnNonFungible → TxPayload
  burn_non_fungible_gas_payer : TxMsgBurnNonFungibleGasPayer → TxPayload
  phantasma : TxMsgPhantasma → TxPayload
  phantasma_raw : TxMsgPhantasmaRaw → TxPayload

module _ ⦃big : BigIntBytes⦄ where
  unfoldable pub write_payload : TxPayload → Put
  write_payload (TxPayload.call value) = write_call value
  write_payload (TxPayload.call_multi value) = write_call_multi value
  write_payload (TxPayload.trade value) = write_trade value
  write_payload (TxPayload.transfer_fungible value) = write_transfer_fungible value
  write_payload (TxPayload.transfer_fungible_gas_payer value) =
      write_transfer_fungible_gas_payer value
  write_payload (TxPayload.transfer_non_fungible_single value) =
      write_transfer_non_fungible_single value
  write_payload (TxPayload.transfer_non_fungible_single_gas_payer value) =
      write_transfer_non_fungible_single_gas_payer value
  write_payload (TxPayload.transfer_non_fungible_multi value) =
      write_transfer_non_fungible_multi value
  write_payload (TxPayload.transfer_non_fungible_multi_gas_payer value) =
      write_transfer_non_fungible_multi_gas_payer value
  write_payload (TxPayload.mint_fungible value) = write_mint_fungible value
  write_payload (TxPayload.burn_fungible value) = write_burn_fungible value
  write_payload (TxPayload.burn_fungible_gas_payer value) = write_burn_fungible_gas_payer value
  write_payload (TxPayload.mint_non_fungible value) = write_mint_non_fungible value
  write_payload (TxPayload.burn_non_fungible value) = write_burn_non_fungible value
  write_payload (TxPayload.burn_non_fungible_gas_payer value) =
      write_burn_non_fungible_gas_payer value
  write_payload (TxPayload.phantasma value) = write_phantasma value
  write_payload (TxPayload.phantasma_raw value) = write_phantasma_raw value

  unfoldable pub payload_from_type : TxType → Get TxPayload
  payload_from_type TxType.call = read_call >>= λ value. pure (TxPayload.call value)
  payload_from_type TxType.call_multi =
      read_call_multi >>= λ value. pure (TxPayload.call_multi value)
  payload_from_type TxType.trade = read_trade >>= λ value. pure (TxPayload.trade value)
  payload_from_type TxType.transfer_fungible =
      read_transfer_fungible >>= λ value. pure (TxPayload.transfer_fungible value)
  payload_from_type TxType.transfer_fungible_gas_payer =
      read_transfer_fungible_gas_payer >>= λ value.
      pure (TxPayload.transfer_fungible_gas_payer value)
  payload_from_type TxType.transfer_non_fungible_single =
      read_transfer_non_fungible_single >>= λ value.
      pure (TxPayload.transfer_non_fungible_single value)
  payload_from_type TxType.transfer_non_fungible_single_gas_payer =
      read_transfer_non_fungible_single_gas_payer >>= λ value.
      pure (TxPayload.transfer_non_fungible_single_gas_payer value)
  payload_from_type TxType.transfer_non_fungible_multi =
      read_transfer_non_fungible_multi >>= λ value.
      pure (TxPayload.transfer_non_fungible_multi value)
  payload_from_type TxType.transfer_non_fungible_multi_gas_payer =
      read_transfer_non_fungible_multi_gas_payer >>= λ value.
      pure (TxPayload.transfer_non_fungible_multi_gas_payer value)
  payload_from_type TxType.mint_fungible =
      read_mint_fungible >>= λ value. pure (TxPayload.mint_fungible value)
  payload_from_type TxType.burn_fungible =
      read_burn_fungible >>= λ value. pure (TxPayload.burn_fungible value)
  payload_from_type TxType.burn_fungible_gas_payer =
      read_burn_fungible_gas_payer >>= λ value. pure (TxPayload.burn_fungible_gas_payer value)
  payload_from_type TxType.mint_non_fungible =
      read_mint_non_fungible >>= λ value. pure (TxPayload.mint_non_fungible value)
  payload_from_type TxType.burn_non_fungible =
      read_burn_non_fungible >>= λ value. pure (TxPayload.burn_non_fungible value)
  payload_from_type TxType.burn_non_fungible_gas_payer =
      read_burn_non_fungible_gas_payer >>= λ value.
      pure (TxPayload.burn_non_fungible_gas_payer value)
  payload_from_type TxType.phantasma = read_phantasma >>= λ value. pure (TxPayload.phantasma value)
  payload_from_type TxType.phantasma_raw =
      read_phantasma_raw >>= λ value. pure (TxPayload.phantasma_raw value)

abbrev pub empty_bytes32 : Bytes
empty_bytes32 = replicate 32 0

-- The account that a gas-payer message moves tokens of.
unfoldable pub from_address : TxPayload → Bytes
from_address (TxPayload.transfer_fungible_gas_payer value) = value.from_address
from_address (TxPayload.transfer_non_fungible_single_gas_payer value) = value.from_address
from_address (TxPayload.transfer_non_fungible_multi_gas_payer value) = value.from_address
from_address (TxPayload.burn_fungible_gas_payer value) = value.from_address
from_address (TxPayload.burn_non_fungible_gas_payer value) = value.from_address
from_address _ = empty_bytes32

pub record TxMsg : Type 0 where
  pub tx_type : TxType
  pub expiry : ℤ
  pub max_gas : ℕ
  pub max_data : ℕ
  pub gas_from : Bytes
  pub payload : SmallString
  pub msg : TxPayload

module _ ⦃big : BigIntBytes⦄ where
  unfoldable pub write_tx_msg : TxMsg → Put
  write_tx_msg m =
      write1 (tx_type_code m.tx_type)
      ▹ write8 m.expiry
      ▹ write8u m.max_gas
      ▹ write8u m.max_data
      ▹ write32 m.gas_from
      ▹ write_small_string m.payload
      ▹ write_payload m.msg

  unfoldable pub read_tx_msg : Get TxMsg
  read_tx_msg = do
    code ← read1
    tx_type ← try_from_code code
    expiry ← read8
    max_gas ← read8u
    max_data ← read8u
    gas_from ← read32
    payload ← read_small_string
    msg ← payload_from_type tx_type
    pure (record {
      tx_type = tx_type;
      expiry = expiry;
      max_gas = max_gas;
      max_data = max_data;
      gas_from = gas_from;
      payload = payload;
      msg = msg;
    })

  instance abbrev pub tx_msg_carbon : CarbonSerializable TxMsg
  tx_msg_carbon = record { write_carbon = write_tx_msg; read_carbon = read_tx_msg }
