-- ===== src/Carbon/Signing/Laws.antt =====
-- A message that `sign_tx_msg_with_keys` of src/carbon.rs signs has the witnesses that its type
-- requires, each with the signature of its own key.
use phantasma_sdk_rs.Prelude.{
  ℕ, zero, suc, ◌≡◌, ◌<◌, refl, sym, ◌∙◌, ap, subst, arith, List, [], ◌∷◌, map, length, Option,
  some, none, true, inl, inr, ◌⊎◌, list_eq, All, All-map, length-map, ◌||◌,
}
use phantasma_sdk_rs.Error.{ok, ok-injective, ◌>>=◌, chain_steps}
use phantasma_sdk_rs.Stream.{Bytes}
use phantasma_sdk_rs.BigInt.{BigIntBytes}
use phantasma_sdk_rs.Carbon.Wire.{serialize, half32}
use phantasma_sdk_rs.Carbon.Payload.Witnesses.{Witness}
use phantasma_sdk_rs.Carbon.Payload.Witnesses.Laws.{WitnessFits}
use phantasma_sdk_rs.Carbon.Message.{TxMsg, tx_msg_carbon}
use phantasma_sdk_rs.Carbon.Message.Laws.{TxMsgFits, Codes-tx_msg}
use phantasma_sdk_rs.Carbon.Message.Kept.{TxMsgInRange}
use phantasma_sdk_rs.Carbon.Envelope.Kept.{kept_signed}
use phantasma_sdk_rs.Carbon.Wire.Laws.{deserialize-serialize}
use phantasma_sdk_rs.Carbon.Envelope.{SignedTxMsg, signed_carbon, required_witnesses, any_signed_by}
use phantasma_sdk_rs.Carbon.Envelope.Laws.{addresses, WitnessSet, Witnessed}
use phantasma_sdk_rs.Carbon.RoundTrip.{
  ReadAs, deserialize-serialize_signed, deserialize-serialize_tx_msg,
}
use phantasma_sdk_rs.Carbon.Signing.{
  contains, Slot, required_slots, array_slots, witness_slots, bytes32_from_public_key, KeyPairs,
  get_elem?, witnesses_of, addresses_of, assert_signable, sign_tx_msg_with_keys,
}
use phantasma_sdk_rs.Carbon.Signing.Slots.{
  Owned, IsFilled, Paired, required_slots-IsFilled, array_slots-IsFilled, witnesses_of-Paired,
  witnesses_of-total,
}

any_signed_by-contains :
    (address : Bytes) (ws : List Witness)
    → any_signed_by address ws ≡ contains (addresses ws) address
unfolding any_signed_by contains
any_signed_by-contains address [] = refl
any_signed_by-contains address (w ∷ ws) =
    ap (λ t. list_eq w.address address || t) (any_signed_by-contains address ws)

-- What the slots of a message are, by what it requires.
abbrev SlotsFor : Option (List Bytes) → Bytes → List Bytes → List Slot → Type 0
SlotsFor (some required) gas_from xs slots = IsFilled xs required slots
SlotsFor none gas_from xs slots = (contains xs gas_from ≡ true) × IsFilled xs xs slots

slots_for :
    (o : Option (List Bytes)) (gas_from : Bytes) (xs : List Bytes) (slots : List Slot)
    → elim o [ some required ↦ required_slots required xs | none ↦ array_slots gas_from xs ]
      ≡ ok slots
    → SlotsFor o gas_from xs slots
slots_for (some required) gas_from xs slots h = required_slots-IsFilled xs required slots h
slots_for none gas_from xs slots h = array_slots-IsFilled gas_from xs slots h

SlotsFor-Owned :
    (o : Option (List Bytes)) (gas_from : Bytes) (xs : List Bytes) (slots : List Slot)
    → SlotsFor o gas_from xs slots
    → All (Owned xs) slots
SlotsFor-Owned (some required) gas_from xs slots (_, owned) = owned
SlotsFor-Owned none gas_from xs slots (_, (_, owned)) = owned

-- The witnesses made of such slots.
SlotsFor-WitnessSet :
    (o : Option (List Bytes)) (m : TxMsg) (xs signatures : List Bytes) (slots : List Slot)
    (ws : List Witness)
    → SlotsFor o m.gas_from xs slots
    → witnesses_of signatures slots ≡ ok ws
    → WitnessSet o m ws × All (Paired xs signatures) ws
SlotsFor-WitnessSet (some required) m xs signatures slots ws (same, owned) h =
    let (e, paired) = witnesses_of-Paired xs signatures slots ws owned h in (e ∙ same, paired)
SlotsFor-WitnessSet none m xs signatures slots ws (signed, (same, owned)) h =
    let (e, paired) = witnesses_of-Paired xs signatures slots ws owned h in
    (
      any_signed_by-contains m.gas_from ws ∙ ap (λ t. contains t m.gas_from) (e ∙ same) ∙ signed,
      paired,
    )

public_key_step :
    (key : Bytes) {address : Bytes}
    → bytes32_from_public_key key ≡ ok address
    → (key ≡ address) × (length key ≡ 32)
unfolding bytes32_from_public_key
public_key_step key h = ground arith

-- A key of the list for which `P` holds.
abbrev pub OneOf {ℓ} : {Key : Type ℓ} → (Key → Type 0) → List Key → Type 0
OneOf P [] = ⊥
OneOf P (key ∷ keys) = P key ⊎ OneOf P keys

module _ (pairs : KeyPairs) where
  -- The public key is the address and the signature is what that key signs.
  abbrev pub OwnSignature : Bytes → Witness → pairs.Key → Type 0
  OwnSignature message w key =
      (pairs.public_key key ≡ w.address) × (pairs.sign key message ≡ w.signature)

  -- A witness signed by one of the keys.
  abbrev pub SignedByOne : List pairs.Key → Bytes → Witness → Type 0
  SignedByOne keys message w = OneOf (OwnSignature message w) keys

  addresses_step :
      (key : pairs.Key) (keys : List pairs.Key) (xs : List Bytes)
      → addresses_of pairs (key ∷ keys) ≡ ok xs
      → (rest : List Bytes) × (pairs.public_key key ∷ rest ≡ xs)
        × (length (pairs.public_key key) ≡ 32)
        × (addresses_of pairs keys ≡ ok rest)
  unfolding addresses_of
  addresses_step key keys xs h =
      let (address, more, first) =
        chain_steps (λ address. addresses_of pairs keys >>= λ rest. ok (address ∷ rest))
          (bytes32_from_public_key (pairs.public_key key)) h in
      let (rest, last, loop) =
        chain_steps (λ rest. ok (address ∷ rest)) (addresses_of pairs keys) more in
      let (same, long) = public_key_step (pairs.public_key key) first in
      (rest, ap (λ t. t ∷ rest) same ∙ ok-injective last, long, loop)

  owner :
      (message : Bytes) (keys : List pairs.Key) (xs : List Bytes) (w : Witness) (place : ℕ)
      → addresses_of pairs keys ≡ ok xs
      → get_elem? xs place ≡ some w.address
      → get_elem? (map (λ key. pairs.sign key message) keys) place ≡ some w.signature
      → SignedByOne keys message w × WitnessFits w
  unfolding get_elem?
  owner message [] xs w place h a s = absurd cc
  owner message (key ∷ keys) xs w zero h a s =
      let (rest, e, long, loop) = addresses_step key keys xs h in
      let address : pairs.public_key key ≡ w.address =
        cc (subst (λ t. get_elem? t 0 ≡ some w.address) (sym e) a) in
      let signature : pairs.sign key message ≡ w.signature = cc in
      (
        inl (address, signature),
        record {
          address = ap length (sym address) ∙ long;
          signature = ap length (sym signature) ∙ pairs.sign-long key message;
        },
      )
  owner message (key ∷ keys) xs w (suc place) h a s =
      let (rest, e, long, loop) = addresses_step key keys xs h in
      let further : get_elem? rest place ≡ some w.address =
        subst (λ t. get_elem? t (suc place) ≡ some w.address) (sym e) a in
      let (one, fits) = owner message keys rest w place loop further s in (inr one, fits)

  witness_slots_step :
      (m : TxMsg) (xs : List Bytes) (slots : List Slot)
      → witness_slots m xs ≡ ok slots
      → SlotsFor (required_witnesses m) m.gas_from xs slots
  unfolding witness_slots
  witness_slots_step m xs slots h = slots_for (required_witnesses m) m.gas_from xs slots h

  module _ ⦃big : BigIntBytes⦄ where
    -- The message, its witnesses and where their signatures come from.
    abbrev pub IsSigned : TxMsg → List pairs.Key → Bytes → SignedTxMsg → Type 0
    IsSigned m keys message s =
        (s.msg ≡ m) × Witnessed s × All (SignedByOne keys message) s.witnesses

    abbrev made : TxMsg → List Witness → SignedTxMsg
    made m ws = record { msg = m; witnesses = ws }

    sign_steps :
        (m : TxMsg) (keys : List pairs.Key) (message : Bytes) (s : SignedTxMsg)
        → serialize m ≡ ok message
        → sign_tx_msg_with_keys pairs m keys ≡ ok s
        → IsSigned m keys message s × All WitnessFits s.witnesses
    unfolding sign_tx_msg_with_keys
    sign_steps m keys message s written h =
        let (_, h1, _) = chain_steps _ (assert_signable m) h in
        let (xs, h2, found) = chain_steps _ (addresses_of pairs keys) h1 in
        let (slots, h3, filled) = chain_steps _ (witness_slots m xs) h2 in
        let (message', h4, written') = chain_steps _ (serialize m) h3 in
        let (ws, last, signed) =
          chain_steps _ (witnesses_of (map (λ key. pairs.sign key message') keys) slots) h4 in
        let (set, paired) =
          SlotsFor-WitnessSet (required_witnesses m) m xs _ slots ws
            (witness_slots_step m xs slots filled) signed in
        let same : message' ≡ message = ok-injective (sym written' ∙ written) in
        let one : (w : Witness)
            → Paired xs (map (λ key. pairs.sign key message') keys) w
            → SignedByOne keys message' w × WitnessFits w =
          λ w (place, a, σ). owner message' keys xs w place found a σ in
        let all_signed =
          subst (λ t. All (SignedByOne keys t) ws) same (All-map (λ w p. (one w p).0) ws paired) in
        let whole : IsSigned m keys message (made m ws) × All WitnessFits ws =
          ((refl, set, all_signed), All-map (λ w p. (one w p).1) ws paired) in
        subst (λ t. IsSigned m keys message t × All WitnessFits t.witnesses) (ok-injective last)
          whole

    -- What is signed is the message itself, with the witnesses that its type requires, each of them
    -- with the address of one of the keys and what that key signs the bytes of the message with.
    pub sign_tx_msg_with_keys-IsSigned :
        (m : TxMsg) (keys : List pairs.Key) (message : Bytes) (s : SignedTxMsg)
        → serialize m ≡ ok message
        → sign_tx_msg_with_keys pairs m keys ≡ ok s
        → IsSigned m keys message s
    sign_tx_msg_with_keys-IsSigned m keys message s written h =
        (sign_steps m keys message s written h).0

    -- Where a message whose fields are in the ranges of their types, whose arrays are shorter than
    -- 2 ^ 31, whose small strings are UTF-8 of at most 255 bytes, whose amounts of type IntX fit a
    -- signed 256-bit word and whose type names its payload is signed with keys, with fewer than
    -- 2 ^ 31 witnesses, the signed message has that message in it, is serialized, and is
    -- deserialized to all its witnesses and to what the format keeps of the message: the message
    -- itself, but for its calls: a call with sections loses its own arguments, a section of a
    -- register its arguments, a section of arguments its offset, and an empty list of sections
    -- becomes none.
    pub deserialize-serialize_sign :
        (m : TxMsg) (keys : List pairs.Key) (s : SignedTxMsg)
        → TxMsgInRange m
        → length s.witnesses < half32
        → sign_tx_msg_with_keys pairs m keys ≡ ok s
        → (s.msg ≡ m) × ReadAs s (kept_signed s)
    deserialize-serialize_sign m keys s fits short h =
        let (message, written, _) = deserialize-serialize_tx_msg m fits in
        let ((same, witnessed, _), wide) = sign_steps m keys message s written h in
        (
          same,
          deserialize-serialize_signed s
              (record {
                msg = subst TxMsgInRange (sym same) fits;
                witnesses_short = short;
                witnesses = wide;
              })
              witnessed,
        )

    length-addresses_of :
        (keys : List pairs.Key) (xs : List Bytes)
        → addresses_of pairs keys ≡ ok xs
        → length xs ≡ length keys
    length-addresses_of [] xs h =
        let e : [] ≡ xs = ok-injective (unfold addresses_of in h) in ap length (sym e)
    length-addresses_of (key ∷ keys) xs h =
        let (rest, e, _, loop) = addresses_step key keys xs h in
        ap length (sym e) ∙ ap suc (length-addresses_of keys rest loop)

    -- A message is signed where it passes the checks before signing, the keys have addresses and
    -- slots are found for them: no step after that fails and no index is out of bounds. The message
    -- is one whose fields are in the ranges of their types, whose arrays are shorter than 2 ^ 31,
    -- whose small strings are UTF-8 of at most 255 bytes, whose amounts of type IntX fit a signed
    -- 256-bit word, whose type names its payload and whose calls are canonical (arguments with no
    -- list of sections, or sections with no arguments beside them, each of them a register with no
    -- arguments or arguments at offset 0).
    pub sign_tx_msg_with_keys-total :
        (m : TxMsg) (keys : List pairs.Key) (xs : List Bytes) (slots : List Slot)
        → TxMsgFits m
        → assert_signable m ≡ ok tt
        → addresses_of pairs keys ≡ ok xs
        → witness_slots m xs ≡ ok slots
        → (s : SignedTxMsg) × (sign_tx_msg_with_keys pairs m keys ≡ ok s)
    unfolding sign_tx_msg_with_keys
    sign_tx_msg_with_keys-total m keys xs slots fits passed found filled =
        let (message, written, _) = deserialize-serialize m (Codes-tx_msg m fits) in
        let signatures : List Bytes = map (λ key. pairs.sign key message) keys in
        let e : length xs ≡ length signatures =
          length-addresses_of keys xs found ∙ sym (length-map _ keys) in
        let (ws, made_of) = witnesses_of-total xs signatures slots e (
          SlotsFor-Owned (required_witnesses m) m.gas_from xs slots
            (witness_slots_step m xs slots filled)) in
        (made m ws, rw (passed, found, filled, written, made_of))
