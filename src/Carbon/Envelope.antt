-- ===== src/Carbon/Envelope.antt =====
-- SignedTxMsg of src/carbon.rs: a message with the signatures of its witnesses, the witnesses that
-- a message requires, and the size of what is signed.
pub mod Laws
pub mod Kept
pub mod Size
pub mod Placeholders
use phantasma_sdk_rs.Prelude.{
  ℕ, zero, suc, ◌^◌, ◌-◌, List, [], ◌∷◌, map, replicate, length, Option, some, none, Bool, true,
  false, ltb, ◌==◌, if◌then◌else◌, list_eq, ◌||◌,
}
use phantasma_sdk_rs.Error.{Result, ok, err, PhantasmaError, serialization, builder}
use phantasma_sdk_rs.Stream.{Bytes, Put, Get, ◌▹◌, skip, fail_put, pure, ◌>>=◌}
use phantasma_sdk_rs.BigInt.{BigIntBytes}
use phantasma_sdk_rs.Carbon.Wire.{
  CarbonSerializable, serialize, write64, write_carbon_array, read64, read_carbon_array,
}
use phantasma_sdk_rs.Carbon.Payload.Witnesses.{Witness, witness_carbon}
use phantasma_sdk_rs.Carbon.Message.{
  TxType, TxMsg, write_tx_msg, read_tx_msg, from_address, empty_bytes32,
}

pub record SignedTxMsg : Type 0 where
  pub msg : TxMsg
  pub witnesses : List Witness

-- The four groups of types that the matches of the source list: one bare signature, two of them,
-- an array of witnesses, and none.
pub data WitnessForm : Type 0 where
  single pair array empty : WitnessForm

unfoldable pub witness_form : TxType → WitnessForm
witness_form TxType.transfer_fungible = single
witness_form TxType.transfer_non_fungible_single = single
witness_form TxType.transfer_non_fungible_multi = single
witness_form TxType.mint_fungible = single
witness_form TxType.burn_fungible = single
witness_form TxType.mint_non_fungible = single
witness_form TxType.burn_non_fungible = single
witness_form TxType.transfer_fungible_gas_payer = pair
witness_form TxType.transfer_non_fungible_single_gas_payer = pair
witness_form TxType.transfer_non_fungible_multi_gas_payer = pair
witness_form TxType.burn_fungible_gas_payer = pair
witness_form TxType.burn_non_fungible_gas_payer = pair
witness_form TxType.call = array
witness_form TxType.call_multi = array
witness_form TxType.trade = array
witness_form TxType.phantasma = array
witness_form TxType.phantasma_raw = empty

unfoldable pub required_of : WitnessForm → TxMsg → Option (List Bytes)
required_of single m = some (m.gas_from ∷ [])
required_of pair m = some (m.gas_from ∷ from_address m.msg ∷ [])
required_of empty m = some []
required_of array m = none

unfoldable pub required_witnesses : TxMsg → Option (List Bytes)
unfolding required_of
required_witnesses m = required_of (witness_form m.tx_type) m

-- `self.witnesses.iter().any(|witness| witness.address == gas_from)`
unfoldable pub any_signed_by : Bytes → List Witness → Bool
any_signed_by address [] = false
any_signed_by address (w ∷ ws) = list_eq w.address address || any_signed_by address ws

unfoldable pub write_single : TxMsg → List Witness → Put
write_single m (w ∷ []) =
    if list_eq w.address m.gas_from
    then write64 w.signature
    else fail_put (serialization "single-witness transaction address mismatch")
write_single m _ = fail_put (serialization "single-witness transaction address mismatch")

unfoldable pub write_pair : TxMsg → List Witness → Put
write_pair m (gas ∷ owner ∷ []) =
    if list_eq gas.address m.gas_from
    then (if list_eq owner.address (from_address m.msg)
        then (write64 gas.signature ▹ write64 owner.signature)
        else fail_put (serialization "from witness address mismatch"))
    else fail_put (serialization "gas witness address mismatch")
write_pair m _ = fail_put (serialization "gas-payer transaction expects 2 witnesses")

unfoldable pub write_array : TxMsg → List Witness → Put
unfolding any_signed_by
write_array m witnesses =
    if any_signed_by m.gas_from witnesses
    then write_carbon_array witnesses
    else fail_put (serialization "the gas payer must be one of the witnesses")

unfoldable pub write_empty : List Witness → Put
write_empty [] = skip
write_empty (w ∷ ws) =
    fail_put (serialization "raw Phantasma transaction must not contain witnesses")

unfoldable pub write_witnesses : WitnessForm → TxMsg → List Witness → Put
unfolding write_single write_pair write_array write_empty
write_witnesses single m witnesses = write_single m witnesses
write_witnesses pair m witnesses = write_pair m witnesses
write_witnesses array m witnesses = write_array m witnesses
write_witnesses empty m witnesses = write_empty witnesses

unfoldable pub read_witnesses : WitnessForm → TxMsg → Get (List Witness)
read_witnesses single m = do
  signature ← read64
  pure (record { address = m.gas_from; signature = signature } ∷ [])
read_witnesses pair m = do
  gas ← read64
  owner ← read64
  pure (
      record { address = m.gas_from; signature = gas }
      ∷ record { address = from_address m.msg; signature = owner }
      ∷ [])
read_witnesses array m = read_carbon_array
read_witnesses empty m = pure []

module _ ⦃big : BigIntBytes⦄ where
  unfoldable pub write_signed : SignedTxMsg → Put
  unfolding write_witnesses witness_form
  write_signed s =
      write_tx_msg s.msg ▹ write_witnesses (witness_form s.msg.tx_type) s.msg s.witnesses

  unfoldable pub read_signed : Get SignedTxMsg
  unfolding read_witnesses witness_form
  read_signed = do
    msg ← read_tx_msg
    witnesses ← read_witnesses (witness_form msg.tx_type) msg
    pure (record { msg = msg; witnesses = witnesses })

  instance abbrev pub signed_carbon : CarbonSerializable SignedTxMsg
  signed_carbon = record { write_carbon = write_signed; read_carbon = read_signed }

-- A stated count has to agree with the number of required witnesses.
unfoldable pub agreed : List Bytes → Option ℕ → Result (List Bytes)
agreed required none = ok required
agreed required (some count) =
    if count == length required then ok required else err (builder "carries other witnesses")

-- The gas payer and anonymous fillers, one witness if no count is stated.
unfoldable pub fillers : TxMsg → ℕ → Result (List Bytes)
fillers m zero = err (builder "needs at least one witness, not 0")
fillers m (suc n) = ok (m.gas_from ∷ replicate n empty_bytes32)

abbrev pub count_or_one : Option ℕ → ℕ
count_or_one none = 1
count_or_one (some count) = count

unfoldable pub placeholder_addresses : TxMsg → Option ℕ → Result (List Bytes)
unfolding required_witnesses witness_form agreed fillers
placeholder_addresses m witness_count = elim (required_witnesses m) [
  | some required ↦ agreed required witness_count
  | none ↦ fillers m (count_or_one witness_count)
]

abbrev pub empty_bytes64 : Bytes
empty_bytes64 = replicate 64 0

unfoldable pub placeholder : Bytes → Witness
placeholder address = record { address = address; signature = empty_bytes64 }

unfoldable pub size_u32 : ℕ → Result ℕ
size_u32 size = if ltb size (2 ^ 32) then ok size else err (builder "envelope exceeds u32 bytes")

module _ ⦃big : BigIntBytes⦄ where
  unfoldable pub envelope_of : TxMsg → List Bytes → Result ℕ
  unfolding placeholder size_u32 write_signed
  envelope_of m addresses =
      elim (serialize
        (let s : SignedTxMsg = record { msg = m; witnesses = map placeholder addresses } in s)) [
          | ok encoded ↦ size_u32 (length encoded)
          | err e ↦ err e
        ]

  unfoldable pub envelope_bytes : TxMsg → Option ℕ → Result ℕ
  unfolding placeholder_addresses envelope_of
  envelope_bytes m witness_count = elim (placeholder_addresses m witness_count) [
    | ok addresses ↦ envelope_of m addresses
    | err e ↦ err e
  ]
