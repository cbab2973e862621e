-- ===== src/Carbon/Signing/Tests.antt =====
-- The theorems on signing at one message and one key, which signs everything alike.
use phantasma_sdk_rs.Prelude.{◌≡◌, ◌++◌, ℕ, refl, arith, pos, List, [], ◌∷◌, replicate, list_eq}
use phantasma_sdk_rs.Error.{ok}
use phantasma_sdk_rs.Stream.{Bytes, new_writer, write, le_bytes, ◌▹◌}
use phantasma_sdk_rs.Text.{is_utf8}
use phantasma_sdk_rs.BigInt.Model.{model}
use phantasma_sdk_rs.Carbon.Wire.{serialize, write1, write8, write8u, write32}
use phantasma_sdk_rs.Carbon.SmallString.{write_small_string}
use phantasma_sdk_rs.Carbon.Payload.Fungible.{write_transfer_fungible}
use phantasma_sdk_rs.Carbon.Message.{
  TxType, TxPayload, TxMsg, tx_msg_carbon, tx_type_code, write_tx_msg, write_payload,
}
use phantasma_sdk_rs.Carbon.Message.Kept.{TxMsgInRange}
use phantasma_sdk_rs.Carbon.Envelope.Kept.{kept_signed}
use phantasma_sdk_rs.Carbon.Message.Laws.{TxMsgFits, type_of}
use phantasma_sdk_rs.Carbon.Envelope.{
  SignedTxMsg, signed_carbon, required_witnesses, required_of, witness_form,
}
use phantasma_sdk_rs.Carbon.RoundTrip.{ReadAs}
use phantasma_sdk_rs.Carbon.Signing.{
  KeyPairs, sign_tx_msg_with_keys, assert_signable, transfer_amount, check_amount, addresses_of,
  bytes32_from_public_key, witness_slots, required_slots, owned_slots, refuse_strays, position,
  contains, witnesses_of, get_elem?, Slot,
}
use phantasma_sdk_rs.Carbon.Signing.Laws.{
  IsSigned, sign_tx_msg_with_keys-IsSigned, deserialize-serialize_sign, sign_tx_msg_with_keys-total,
}

abbrev account : Bytes
account = replicate 32 7

abbrev message : TxMsg
message = record {
  tx_type = TxType.transfer_fungible;
  expiry = pos 1;
  max_gas = 2;
  max_data = 3;
  gas_from = account;
  payload = record { text = [] };
  msg = TxPayload.transfer_fungible (record { to = replicate 32 9; token_id = 4; amount = 5 });
}

abbrev signed : SignedTxMsg
signed = record {
  msg = message;
  witnesses = record { address = account; signature = replicate 64 5 } ∷ [];
}

abbrev word : ℕ → Bytes
word n = n ∷ replicate 7 0

abbrev message_bytes : Bytes
message_bytes =
    3 ∷ word 1 ++ (word 2 ++ (word 3 ++ (account ++ (0 ∷ replicate 32 9 ++ (word 4 ++ word 5)))))

message-Fits : TxMsgFits message
unfolding type_of is_utf8
message-Fits = record {
  tx_type = refl;
  expiry = omega arith;
  max_gas = omega arith;
  max_data = omega arith;
  gas_from = refl;
  payload = record { short = omega arith; valid = refl };
  msg = record { to = refl; token_id = omega arith; amount = omega arith };
}

message-InRange : TxMsgInRange message
unfolding type_of is_utf8
message-InRange = record {
  tx_type = refl;
  expiry = omega arith;
  max_gas = omega arith;
  max_data = omega arith;
  gas_from = refl;
  payload = record { short = omega arith; valid = refl };
  msg = record { to = refl; token_id = omega arith; amount = omega arith };
}

abbrev pairs : KeyPairs
pairs = record {
  Key = Unit {0};
  public_key = λ key. account;
  sign = λ key message. replicate 64 5;
  sign-long = λ key message. refl;
}

abbrev keys : List (Unit {0})
keys = tt ∷ []

message_written : serialize message ≡ ok message_bytes
unfolding serialize new_writer write_tx_msg tx_type_code write1 write8 write8u write32
    write_small_string write_payload write_transfer_fungible write le_bytes ◌▹◌
message_written = refl

passed : assert_signable message ≡ ok tt
unfolding assert_signable transfer_amount check_amount
passed = refl

found : addresses_of pairs keys ≡ ok (account ∷ [])
unfolding addresses_of bytes32_from_public_key
found = refl

abbrev slots : List Slot
slots = (account, 0) ∷ []

filled : witness_slots message (account ∷ []) ≡ ok slots
unfolding witness_slots required_witnesses witness_form required_of required_slots owned_slots
    refuse_strays position contains list_eq
filled = refl

run_sign : sign_tx_msg_with_keys pairs message keys ≡ ok signed
unfolding sign_tx_msg_with_keys assert_signable transfer_amount check_amount addresses_of
    bytes32_from_public_key witness_slots required_witnesses witness_form required_of required_slots
    owned_slots refuse_strays position contains list_eq witnesses_of get_elem? serialize new_writer
    write_tx_msg tx_type_code write1 write8 write8u write32 write_small_string write_payload
    write_transfer_fungible write le_bytes ◌▹◌
run_sign = refl

sign_tx_msg_with_keys-IsSigned_example : IsSigned pairs message keys message_bytes signed
sign_tx_msg_with_keys-IsSigned_example =
    sign_tx_msg_with_keys-IsSigned pairs message keys message_bytes signed message_written run_sign

deserialize-serialize_sign_example : (message ≡ message) × ReadAs signed (kept_signed signed)
deserialize-serialize_sign_example =
    deserialize-serialize_sign pairs message keys signed message-InRange (omega arith) run_sign

sign_tx_msg_with_keys-total_example :
    (s : SignedTxMsg) × (sign_tx_msg_with_keys pairs message keys ≡ ok s)
sign_tx_msg_with_keys-total_example =
    sign_tx_msg_with_keys-total pairs message keys (account ∷ []) slots message-Fits passed found
      filled
