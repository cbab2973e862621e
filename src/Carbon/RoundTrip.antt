-- ===== src/Carbon/RoundTrip.antt =====
-- What `serialize` of src/carbon.rs makes of a value, `deserialize` takes back, and it takes nothing
-- behind it.
use phantasma_sdk_rs.Prelude.{◌≡◌, arith, [], ◌∷◌, ◌++◌, length, ◌==◌, false, ℕ}
use phantasma_sdk_rs.Error.{ok, err, serialization}
use phantasma_sdk_rs.Stream.{Bytes, assert_eof}
use phantasma_sdk_rs.Stream.Codes.{Codes, reader_at, remaining_at}
use phantasma_sdk_rs.BigInt.{BigIntBytes}
use phantasma_sdk_rs.Carbon.Wire.{CarbonSerializable, serialize, deserialize}
use phantasma_sdk_rs.Carbon.Wire.Laws.{
  serialize-bytes, deserialize-serialize, deserialize-serialize_as,
}
use phantasma_sdk_rs.Carbon.IntX.{IntX, int_x_carbon}
use phantasma_sdk_rs.Carbon.IntX.Short.{InWord, Codes-int_x}
use phantasma_sdk_rs.Carbon.Payload.Call.{TxMsgCall, call_carbon}
use phantasma_sdk_rs.Carbon.Payload.Call.Laws.{Codes-call}
use phantasma_sdk_rs.Carbon.Payload.Call.Kept.{
  kept_call, TxMsgCallInRange, write_call-kept_call, kept_call-Fits,
}
use phantasma_sdk_rs.Carbon.Message.{TxMsg, tx_msg_carbon}
use phantasma_sdk_rs.Carbon.Message.Laws.{Codes-tx_msg}
use phantasma_sdk_rs.Carbon.Message.Kept.{
  kept_msg, TxMsgInRange, write_tx_msg-kept_msg, kept_msg-Fits,
}
use phantasma_sdk_rs.Carbon.GasConfig.{GasConfig, gas_config_carbon}
use phantasma_sdk_rs.Carbon.GasConfig.Laws.{GasConfigFits, Codes-gas_config}
use phantasma_sdk_rs.Carbon.Envelope.{SignedTxMsg, signed_carbon}
use phantasma_sdk_rs.Carbon.Envelope.Kept.{
  kept_signed, SignedTxMsgInRange, kept_signed-Fits, kept_signed-Witnessed,
  write_signed-kept_signed,
}
use phantasma_sdk_rs.Carbon.Envelope.Laws.{SignedTxMsgFits, Witnessed, Codes-signed}

eof_refuses :
    (front : Bytes) (b : ℕ) (rest : Bytes)
    → assert_eof (reader_at front (b ∷ rest)) ≡ err (serialization "unexpected trailing bytes")
unfolding assert_eof
eof_refuses front b rest =
    let some_left : (length (b ∷ rest) == 0) ≡ false = ground arith in
    rw (remaining_at front (b ∷ rest), some_left)

module _ {A : Type 0} ⦃c : CarbonSerializable A⦄ where
  -- The bytes of a value, which are read back from the front of any others.
  abbrev pub Survives : A → Type 0
  Survives a = (bytes : Bytes) × (serialize a ≡ ok bytes) × (deserialize bytes ≡ ok a)

  -- The bytes of the first value, which are read back as the second.
  abbrev pub ReadAs : A → A → Type 0
  ReadAs a b = (bytes : Bytes) × (serialize a ≡ ok bytes) × (deserialize bytes ≡ ok b)

  -- The bytes of a value with any others behind them.
  abbrev pub RefusesMore : A → Type 0
  RefusesMore a =
      (bytes : Bytes) × (serialize a ≡ ok bytes)
      × ((b : ℕ) (rest : Bytes)
          → deserialize {A = A} (bytes ++ b ∷ rest)
            ≡ err (serialization "unexpected trailing bytes"))

  refuses_more : {n : ℕ} (a : A) → Codes n (c.write_carbon a) c.read_carbon a → RefusesMore a
  unfolding deserialize
  refuses_more a d = (
    d.bytes,
    serialize-bytes a d,
    λ b rest. rw (d.reads [] (b ∷ rest), deserialize) (rw (eof_refuses d.bytes b rest)),
  )

-- Every call with ids of 32 bits, offsets of 31 bits and a sign, and fewer than 2 ^ 31 sections and
-- bytes of arguments, where they are written, is serialized, and deserialized to what the format
-- keeps of it: the call itself, but that a call with sections loses its own arguments, a section of
-- a register its arguments, a section of arguments its offset, and an empty list of sections
-- becomes none.
pub deserialize-serialize_call : (m : TxMsgCall) → TxMsgCallInRange m → ReadAs m (kept_call m)
deserialize-serialize_call m h =
    deserialize-serialize_as m (kept_call m) (write_call-kept_call m)
      (Codes-call (kept_call m) (kept_call-Fits m h))

-- A gas configuration of either version survives the wire.
pub deserialize-serialize_gas_config : (c : GasConfig) → GasConfigFits c → Survives c
deserialize-serialize_gas_config c h = deserialize-serialize c (Codes-gas_config c h)

module _ ⦃big : BigIntBytes⦄ where
  -- Every integer of a signed 256-bit word is written, in the form that IntX chooses for it, and
  -- read back as it was.
  pub deserialize-serialize_int_x : (x : IntX) → InWord x → Survives x
  deserialize-serialize_int_x x h = deserialize-serialize x (Codes-int_x x h)

  -- Every message whose fields are in the ranges of their types, whose arrays are shorter than
  -- 2 ^ 31, whose small strings are UTF-8 of at most 255 bytes, whose amounts of type IntX fit a
  -- signed 256-bit word and whose type names its payload is serialized, for each of the seventeen
  -- payloads, and deserialized to what the format keeps of it: the message itself, but for its
  -- calls: a call with sections loses its own arguments, a section of a register its arguments, a
  -- section of arguments its offset, and an empty list of sections becomes none.
  pub deserialize-serialize_tx_msg : (m : TxMsg) → TxMsgInRange m → ReadAs m (kept_msg m)
  deserialize-serialize_tx_msg m h =
      deserialize-serialize_as m (kept_msg m) (write_tx_msg-kept_msg m)
        (Codes-tx_msg (kept_msg m) (kept_msg-Fits m h))

  -- Every signed message with the witnesses that its type requires, fewer than 2 ^ 31 of them, of
  -- 32-byte addresses and 64-byte signatures, and with a message whose fields are in the ranges of
  -- their types, whose arrays are shorter than 2 ^ 31, whose small strings are UTF-8 of at most 255
  -- bytes, whose amounts of type IntX fit a signed 256-bit word and whose type names its payload,
  -- is serialized, and deserialized to all its witnesses, the addresses that the bytes leave out
  -- included, and to what the format keeps of the message: the message itself, but for its calls: a
  -- call with sections loses its own arguments, a section of a register its arguments, a section of
  -- arguments its offset, and an empty list of sections becomes none.
  pub deserialize-serialize_signed :
      (s : SignedTxMsg) → SignedTxMsgInRange s → Witnessed s → ReadAs s (kept_signed s)
  deserialize-serialize_signed s h e =
      deserialize-serialize_as s (kept_signed s) (write_signed-kept_signed s)
        (Codes-signed (kept_signed s) (kept_signed-Fits s h) (kept_signed-Witnessed s e))

  -- The bytes of a signed message with its required witnesses, fewer than 2 ^ 31 of them, of
  -- 32-byte addresses and 64-byte signatures, with any others behind them, are refused for trailing
  -- bytes. The message is one whose fields are in the ranges of their types, whose arrays are
  -- shorter than 2 ^ 31, whose small strings are UTF-8 of at most 255 bytes, whose amounts of type
  -- IntX fit a signed 256-bit word, whose type names its payload and whose calls are canonical
  -- (arguments with no list of sections, or sections with no arguments beside them, each of them a
  -- register with no arguments or arguments at offset 0).
  pub deserialize-trailing_signed :
      (s : SignedTxMsg) → SignedTxMsgFits s → Witnessed s → RefusesMore s
  deserialize-trailing_signed s h e = refuses_more s (Codes-signed s h e)
