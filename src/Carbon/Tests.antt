-- ===== src/Carbon/Tests.antt =====
-- The theorems on the Carbon format at concrete messages, and small runs of the code.
use phantasma_sdk_rs.Prelude.{
  ◌≡◌, ◌^◌, ◌-◌, ◌++◌, ℤ, refl, arith, pos, negsuc, [], ◌∷◌, length, replicate, some, list_eq,
}
use phantasma_sdk_rs.Error.{ok, err, PhantasmaError, serialization, panicked}
use phantasma_sdk_rs.Stream.{
  Bytes, pure, fail, ◌>>=◌, new_writer, new_reader, read, remaining, from_le, write, le_bytes, ◌▹◌,
}
use phantasma_sdk_rs.Text.{is_utf8}
use phantasma_sdk_rs.BigInt.Model.{model, digits}
use phantasma_sdk_rs.BigInt.{signed_word_256}
use phantasma_sdk_rs.Carbon.Wire.{serialize, deserialize, write1, write8, read1, read4, read4u}
use phantasma_sdk_rs.Carbon.IntX.{
  IntX, int_x_carbon, write_int_x, is_8_byte_safe, write_big_int, write_word, trim, compact_header,
  read_int_x, read_int_x_with_header,
}
use phantasma_sdk_rs.Carbon.Payload.Fungible.{TxMsgTransferFungible}
use phantasma_sdk_rs.Carbon.Payload.Call.{
  TxMsgCall, call_carbon, read_call, read_call_body, read_with_count,
}
use phantasma_sdk_rs.Carbon.Payload.Call.Kept.{
  kept_call, kept_args, kept_sections, kept_of_sections, kept_section, kept_of_section,
  TxMsgCallInRange,
}
use phantasma_sdk_rs.Carbon.Message.Kept.{kept_msg, TxMsgInRange}
use phantasma_sdk_rs.Carbon.Envelope.Kept.{kept_signed, SignedTxMsgInRange}
use phantasma_sdk_rs.Carbon.GasConfig.{GasConfig, gas_config_carbon}
use phantasma_sdk_rs.Carbon.GasConfig.Laws.{GasConfigFits}
use phantasma_sdk_rs.Carbon.Message.{TxType, TxPayload, TxMsg, tx_msg_carbon}
use phantasma_sdk_rs.Carbon.Message.Laws.{TxMsgFits, type_of}
use phantasma_sdk_rs.Carbon.Envelope.{
  SignedTxMsg, signed_carbon, write_signed, envelope_bytes, size_u32, required_witnesses,
  required_of, witness_form, any_signed_by,
}
use phantasma_sdk_rs.Carbon.Envelope.Laws.{SignedTxMsgFits, Witnessed, write_signed-refused}
use phantasma_sdk_rs.Carbon.Envelope.Placeholders.{envelope_bytes-serialize}
use phantasma_sdk_rs.Carbon.RoundTrip.{
  Survives, ReadAs, RefusesMore, deserialize-serialize_call, deserialize-serialize_gas_config,
  deserialize-serialize_int_x, deserialize-serialize_tx_msg, deserialize-serialize_signed,
  deserialize-trailing_signed,
}

abbrev account : Bytes
account = replicate 32 7

abbrev transfer : TxMsgTransferFungible
transfer = record { to = replicate 32 9; token_id = 1; amount = 250 }

abbrev message : TxMsg
message = record {
  tx_type = TxType.transfer_fungible;
  expiry = pos 1700000000;
  max_gas = 10000;
  max_data = 1000;
  gas_from = account;
  payload = record { text = 0x6D ∷ 0x65 ∷ 0x6D ∷ 0x6F ∷ [] };
  msg = TxPayload.transfer_fungible transfer;
}

message-Fits : TxMsgFits message
unfolding type_of is_utf8
message-Fits = record {
  tx_type = refl;
  expiry = omega arith;
  max_gas = omega arith;
  max_data = omega arith;
  gas_from = refl;
  payload = record { short = omega arith; valid = refl };
  msg = record { to = refl; token_id = omega arith; amount = omega arith };
}

abbrev signed : SignedTxMsg
signed = record {
  msg = message;
  witnesses = record { address = account; signature = replicate 64 5 } ∷ [];
}

signed-Fits : SignedTxMsgFits signed
signed-Fits = record {
  msg = message-Fits;
  witnesses_short = omega arith;
  witnesses = (record { address = refl; signature = refl }, tt);
}

signed-Witnessed : Witnessed signed
unfolding required_witnesses witness_form required_of
signed-Witnessed = refl

abbrev unsigned : SignedTxMsg
unsigned = record { msg = message; witnesses = [] }

unsigned-Witnessed_not : ¬ Witnessed unsigned
unfolding required_witnesses witness_form required_of
unsigned-Witnessed_not h = absurd cc

-- A call with arguments beside its sections, an offset at which arguments would stand, and arguments
-- beside a register.
abbrev call : TxMsgCall
call = record {
  module_id = 1;
  method_id = 7;
  args = 1 ∷ 2 ∷ 3 ∷ [];
  sections = some (record {
    sections =
        record { register_offset = pos 4; args = 5 ∷ 6 ∷ [] }
        ∷ record { register_offset = negsuc 1; args = 9 ∷ [] }
        ∷ [];
  });
}

-- What the format keeps of it.
abbrev bare_call : TxMsgCall
bare_call = record {
  module_id = 1;
  method_id = 7;
  args = [];
  sections = some (record {
    sections =
        record { register_offset = pos 0; args = 5 ∷ 6 ∷ [] }
        ∷ record { register_offset = negsuc 1; args = [] }
        ∷ [];
  });
}

call-InRange : TxMsgCallInRange call
call-InRange = record {
  module_id = omega arith;
  method_id = omega arith;
  body = (omega arith, (omega arith, omega arith), (omega arith, tt));
}

abbrev call_message : TxMsg
call_message = record message { tx_type = TxType.call; msg = TxPayload.call call }

call_message-InRange : TxMsgInRange call_message
unfolding type_of is_utf8
call_message-InRange = record {
  tx_type = refl;
  expiry = omega arith;
  max_gas = omega arith;
  max_data = omega arith;
  gas_from = refl;
  payload = record { short = omega arith; valid = refl };
  msg = call-InRange;
}

abbrev signed_call : SignedTxMsg
signed_call = record signed { msg = call_message }

signed_call-InRange : SignedTxMsgInRange signed_call
signed_call-InRange = record {
  msg = call_message-InRange;
  witnesses_short = omega arith;
  witnesses = (record { address = refl; signature = refl }, tt);
}

signed_call-Witnessed : Witnessed signed_call
unfolding required_witnesses witness_form required_of any_signed_by list_eq
signed_call-Witnessed = refl

abbrev prices : GasConfig
prices = record {
  version = 1;
  max_name_length = 32;
  max_token_symbol_length = 10;
  fee_shift = 0;
  max_structure_size = 0;
  fee_multiplier = 10000;
  gas_token_id = 1;
  data_token_id = 2;
  minimum_gas_offer = 5000;
  data_escrow_per_row = 0;
  gas_fee_transfer = 10;
  gas_fee_query = 2;
  gas_fee_create_token_base = 0;
  gas_fee_create_token_symbol = 0;
  gas_fee_create_token_series = 0;
  gas_fee_per_byte = 0;
  gas_fee_register_name = 0;
  gas_burn_ratio_mul = 0;
  gas_burn_ratio_shift = 0;
  minimum_gas_bill = 300;
  gas_producer_ratio_mul = 0;
  gas_producer_ratio_shift = 0;
  gas_dapp_ratio_mul = 0;
  gas_dapp_ratio_shift = 0;
  policy_fee_create_token_base = 0;
  policy_fee_create_token_symbol = 0;
  policy_fee_create_token_series = 0;
  policy_fee_register_name = 100000;
  legacy_data_escrow_per_row = 0;
}

prices-Fits : GasConfigFits prices
prices-Fits = omega arith

deserialize-serialize_call_example : ReadAs call bare_call
unfolding kept_call kept_args kept_sections kept_of_sections kept_section kept_of_section
deserialize-serialize_call_example = deserialize-serialize_call call call-InRange

deserialize-serialize_gas_config_example : Survives prices
deserialize-serialize_gas_config_example = deserialize-serialize_gas_config prices prices-Fits

abbrev amount : IntX
amount = record { value = negsuc (2 ^ 200) }

deserialize-serialize_int_x_example : Survives amount
deserialize-serialize_int_x_example = deserialize-serialize_int_x amount (omega arith)

deserialize-serialize_tx_msg_example : ReadAs call_message (kept_msg call_message)
deserialize-serialize_tx_msg_example =
    deserialize-serialize_tx_msg call_message call_message-InRange

deserialize-serialize_signed_example : ReadAs signed_call (kept_signed signed_call)
deserialize-serialize_signed_example =
    deserialize-serialize_signed signed_call signed_call-InRange signed_call-Witnessed

deserialize-trailing_signed_example : RefusesMore signed
deserialize-trailing_signed_example =
    deserialize-trailing_signed signed signed-Fits signed-Witnessed

write_signed-refused_example :
    (e : PhantasmaError) × (write_signed unsigned (record { buffer = [] }) ≡ err e)
write_signed-refused_example = write_signed-refused unsigned message-Fits unsigned-Witnessed_not []

envelope_bytes-serialize_example :
    (out : Bytes) × (serialize signed ≡ ok out)
    × (envelope_bytes message (some 1) ≡ size_u32 (length out))
envelope_bytes-serialize_example = envelope_bytes-serialize signed signed-Fits signed-Witnessed

-- Runs of the code: five in its short form, the unsigned word 2 ^ 256 - 1, which is written in a
-- form that the reader of IntX refuses, and the count of sections at which the reader panics.
abbrev int_x : ℤ → IntX
int_x z = record { value = z }

serialize_five : serialize (int_x (pos 5)) ≡ ok (0x08 ∷ 5 ∷ replicate 7 0)
unfolding serialize new_writer write_int_x is_8_byte_safe write1 write8 write le_bytes ◌▹◌
serialize_five = refl

serialize_top : serialize (int_x (pos (2 ^ 256 - 1))) ≡ ok (0x80 ∷ [])
unfolding serialize new_writer write_int_x is_8_byte_safe write_big_int signed_word_256 write_word
    trim compact_header write1 write ◌▹◌ digits
serialize_top = refl

deserialize_top : deserialize {A = IntX} (0x80 ∷ []) ≡ err (serialization "invalid IntX packing")
unfolding deserialize new_reader read_int_x read1 read remaining read_int_x_with_header ◌>>=◌ pure
    fail
deserialize_top = refl

deserialize_sections :
    deserialize {A = TxMsgCall} (replicate 8 0 ++ (0 ∷ 0 ∷ 0 ∷ 0x80 ∷ []))
    ≡ err (panicked "attempt to negate with overflow")
unfolding deserialize new_reader read_call read4u read4 read remaining from_le read_call_body
    read_with_count ◌>>=◌ pure fail
deserialize_sections = refl
