-- ===== src/Fees/Envelope.antt =====
-- `envelope_bytes_for` of src/fees.rs, which prices an envelope by the kind of its operation, beside
-- `envelope_bytes` of src/carbon.rs, which builds the envelope.
use phantasma_sdk_rs.Prelude.{ℕ, ◌+◌, if◌then◌else◌}
use phantasma_sdk_rs.Carbon.Message.{tx_msg_carbon}
use phantasma_sdk_rs.Fees.Words.{add32, mul32}
use phantasma_sdk_rs.Fees.Params.{NativeFeeKind, uses_bare_signatures}

abbrev pub native_signature_bytes : ℕ
native_signature_bytes = 64

abbrev pub witness_array_entry_bytes : ℕ
witness_array_entry_bytes = 32 + 64

unfoldable pub envelope_bytes_for : NativeFeeKind → ℕ → ℕ → ℕ
envelope_bytes_for kind serialized_message_length witness_count =
    if uses_bare_signatures kind
    then add32 serialized_message_length (mul32 native_signature_bytes witness_count)
    else add32 (add32 serialized_message_length 4) (mul32 witness_array_entry_bytes witness_count)
