-- ===== src/Carbon/Envelope/Placeholders.antt =====
-- The placeholders of `envelope_bytes` in src/carbon.rs, which stand for witnesses that the chain
-- takes, so that the size found with them is that of the signed message.
use phantasma_sdk_rs.Prelude.{
  ℕ, zero, suc, ◌+◌, ◌<◌, ◌≡◌, ◌∙◌, ap, refl, sym, subst, arith, List, [], ◌∷◌, map, length,
  replicate, All, length-replicate, length-map, Option, some, none, true, ==_refl, list_eq_refl,
}
use phantasma_sdk_rs.Error.{Result, ok, ok-injective}
use phantasma_sdk_rs.Stream.{Bytes}
use phantasma_sdk_rs.BigInt.{BigIntBytes}
use phantasma_sdk_rs.Carbon.Wire.{half32, serialize}
use phantasma_sdk_rs.Carbon.Payload.Witnesses.{Witness}
use phantasma_sdk_rs.Carbon.Payload.Witnesses.Laws.{WitnessFits}
use phantasma_sdk_rs.Carbon.Message.{TxMsg, tx_msg_carbon, from_address, TxPayload, empty_bytes32}
use phantasma_sdk_rs.Carbon.Message.Laws.{TxMsgFits, PayloadFits}
use phantasma_sdk_rs.Carbon.Envelope.{
  SignedTxMsg, WitnessForm, single, pair, array, empty, witness_form, required_of,
  required_witnesses, any_signed_by, signed_carbon, agreed, fillers, placeholder_addresses,
  placeholder, size_u32, envelope_of, envelope_bytes,
}
use phantasma_sdk_rs.Carbon.Envelope.Laws.{addresses, WitnessSet, Witnessed, SignedTxMsgFits}
use phantasma_sdk_rs.Carbon.Envelope.Size.{length-serialize, witness_size, is_bare}

abbrev Is32 : Bytes → Type 0
Is32 address = length address ≡ 32

length-from_address : (p : TxPayload) → PayloadFits p → length (from_address p) ≡ 32
unfolding from_address
length-from_address (TxPayload.call value) h = refl
length-from_address (TxPayload.call_multi value) h = refl
length-from_address (TxPayload.trade value) h = refl
length-from_address (TxPayload.transfer_fungible value) h = refl
length-from_address (TxPayload.transfer_fungible_gas_payer value) h = h.from_address
length-from_address (TxPayload.transfer_non_fungible_single value) h = refl
length-from_address (TxPayload.transfer_non_fungible_single_gas_payer value) h = h.from_address
length-from_address (TxPayload.transfer_non_fungible_multi value) h = refl
length-from_address (TxPayload.transfer_non_fungible_multi_gas_payer value) h = h.from_address
length-from_address (TxPayload.mint_fungible value) h = refl
length-from_address (TxPayload.burn_fungible value) h = refl
length-from_address (TxPayload.burn_fungible_gas_payer value) h = h.from_address
length-from_address (TxPayload.mint_non_fungible value) h = refl
length-from_address (TxPayload.burn_non_fungible value) h = refl
length-from_address (TxPayload.burn_non_fungible_gas_payer value) h = h.from_address
length-from_address (TxPayload.phantasma value) h = refl
length-from_address (TxPayload.phantasma_raw value) h = refl

addresses-placeholder : (required : List Bytes) → addresses (map placeholder required) ≡ required
unfolding placeholder
addresses-placeholder [] = refl
addresses-placeholder (a ∷ required) = ap (λ t. a ∷ t) (addresses-placeholder required)

placeholder-Fits :
    (required : List Bytes) → All Is32 required → All WitnessFits (map placeholder required)
unfolding placeholder
placeholder-Fits [] h = tt
placeholder-Fits (a ∷ required) (h, hs) = (
  record { address = h; signature = length-replicate {A = ℕ} 64 0 },
  placeholder-Fits required hs,
)

length-addresses : (ws : List Witness) → length (addresses ws) ≡ length ws
length-addresses ws = length-map (λ w. w.address) ws

All-Is32 : (n : ℕ) → All Is32 (replicate n empty_bytes32)
All-Is32 zero = tt
All-Is32 (suc n) = (refl, All-Is32 n)

-- Addresses that can stand for `count` witnesses of a message.
record Stand (form : WitnessForm) (m : TxMsg) (count : ℕ) (found : List Bytes) : Type 0 where
  size : length found ≡ count
  wide : All Is32 found
  set : WitnessSet (required_of form m) m (map placeholder found)

Stand-required :
    (form : WitnessForm) (m : TxMsg) (ws : List Witness) (required : List Bytes)
    → required_of form m ≡ some required
    → addresses ws ≡ required
    → All Is32 required
    → Stand form m (length ws) required
Stand-required form m ws required e d h = record {
  size = ap length (sym d) ∙ length-addresses ws;
  wide = h;
  set =
      subst (λ r. WitnessSet r m (map placeholder required)) (sym e)
        (addresses-placeholder required);
}

agreed_lem :
    (required : List Bytes) (ws : List Witness)
    → addresses ws ≡ required
    → agreed required (some (length ws)) ≡ ok required
unfolding agreed
agreed_lem required ws e =
    let same : length ws ≡ length required = sym (length-addresses ws) ∙ ap length e in
    rw (same, ==_refl)

-- What `placeholder_addresses` answers, by the form of the envelope.
abbrev chosen : WitnessForm → TxMsg → Option ℕ → Result (List Bytes)
chosen form m count = elim (required_of form m) [
  | some required ↦ agreed required count
  | none ↦ fillers m (elim count [ none ↦ 1 | some n ↦ n ])
]

signed_head :
    (a : Bytes) (found : List Bytes) → any_signed_by a (map placeholder (a ∷ found)) ≡ true
unfolding any_signed_by placeholder
signed_head a found = rw (list_eq_refl a)

placeholder_addresses_lem :
    (m : TxMsg) (count : ℕ)
    → placeholder_addresses m (some count) ≡ chosen (witness_form m.tx_type) m (some count)
unfolding placeholder_addresses required_witnesses
placeholder_addresses_lem m count = refl

chosen-Stand :
    (form : WitnessForm) (m : TxMsg) (ws : List Witness)
    → TxMsgFits m
    → WitnessSet (required_of form m) m ws
    → (found : List Bytes) × (chosen form m (some (length ws)) ≡ ok found)
      × Stand form m (length ws) found
unfolding required_of
chosen-Stand single m ws h e =
    (_, agreed_lem _ ws e, Stand-required single m ws _ refl e (h.gas_from, tt))
chosen-Stand pair m ws h e = (
  _,
  agreed_lem _ ws e,
  Stand-required pair m ws _ refl e (h.gas_from, (length-from_address m.msg h.msg, tt)),
)
chosen-Stand empty m ws h e = (_, agreed_lem _ ws e, Stand-required empty m ws _ refl e tt)
chosen-Stand array m [] h e = unfold any_signed_by in absurd cc
chosen-Stand array m (w ∷ ws) h e =
    unfold fillers in
    (
      m.gas_from ∷ replicate (length ws) empty_bytes32,
      refl,
      record {
        size = ap suc (length-replicate (length ws) empty_bytes32);
        wide = (h.gas_from, All-Is32 (length ws));
        set = signed_head m.gas_from _;
      },
    )

module _ ⦃big : BigIntBytes⦄ where
  -- The message with placeholders in place of its witnesses.
  abbrev filled : TxMsg → List Bytes → SignedTxMsg
  filled m found = record { msg = m; witnesses = map placeholder found }

  filled-Fits :
      (m : TxMsg) (found : List Bytes)
      → TxMsgFits m
      → length found < half32
      → All Is32 found
      → SignedTxMsgFits (filled m found)
  filled-Fits m found h short wide = record {
    msg = h;
    witnesses_short = omega (arith, length-map placeholder found, short);
    witnesses = placeholder-Fits found wide;
  }

  envelope_of_ok :
      (m : TxMsg) (found : List Bytes) {out : Bytes}
      → serialize (filled m found) ≡ ok out
      → envelope_of m found ≡ size_u32 (length out)
  unfolding envelope_of
  envelope_of_ok m found e = rw (e, envelope_of)

  envelope_bytes_ok :
      (m : TxMsg) (count : Option ℕ) {found : List Bytes}
      → placeholder_addresses m count ≡ ok found
      → envelope_bytes m count ≡ envelope_of m found
  unfolding envelope_bytes
  envelope_bytes_ok m count e = rw (e, envelope_bytes)

  pub envelope_size :
      (s : SignedTxMsg)
      → SignedTxMsgFits s
      → Witnessed s
      → {msg : Bytes} → serialize s.msg ≡ ok msg
      → envelope_bytes s.msg (some (length s.witnesses))
        ≡ size_u32
            (length msg + witness_size (is_bare (witness_form s.msg.tx_type)) (length s.witnesses))
  unfolding required_witnesses
  envelope_size s h e {msg} written =
      let (found, chose, stand) =
        chosen-Stand (witness_form s.msg.tx_type) s.msg s.witnesses h.msg e in
      let fits =
        filled-Fits s.msg found h.msg (omega (arith, stand.size, h.witnesses_short)) stand.wide in
      let (msg', out, same, filled_out, size) =
        length-serialize (filled s.msg found) fits stand.set in
      let same_msg : msg ≡ msg' = ok-injective (sym written ∙ same) in
      let count : length (map placeholder found) ≡ length s.witnesses =
        length-map placeholder found ∙ stand.size in
      envelope_bytes_ok s.msg _ (placeholder_addresses_lem s.msg _ ∙ chose)
      ∙ envelope_of_ok s.msg found filled_out
      ∙ ap size_u32 (size ∙ rw (count, ← same_msg))

  -- A message with the witnesses that it requires, fewer than 2 ^ 31 of them, of 32-byte addresses
  -- and 64-byte signatures, is serialized, and envelope_bytes, from the message and the number of
  -- witnesses alone, answers the number of those bytes, or the refusal of a number that u32 does
  -- not hold. The message is one whose fields are in the ranges of their types, whose arrays are
  -- shorter than 2 ^ 31, whose small strings are UTF-8 of at most 255 bytes, whose amounts of type
  -- IntX fit a signed 256-bit word, whose type names its payload and whose calls are canonical
  -- (arguments with no list of sections, or sections with no arguments beside them, each of them a
  -- register with no arguments or arguments at offset 0).
  pub envelope_bytes-serialize :
      (s : SignedTxMsg)
      → SignedTxMsgFits s
      → Witnessed s
      → (out : Bytes) × (serialize s ≡ ok out)
        × (envelope_bytes s.msg (some (length s.witnesses)) ≡ size_u32 (length out))
  envelope_bytes-serialize s h e =
      let (msg, out, written, signed, size) = length-serialize s h e in
      (out, signed, envelope_size s h e written ∙ ap size_u32 (sym size))
