-- ===== src/Carbon/Envelope/Laws.antt =====
-- The envelope is written exactly for the witnesses that the message requires, and read back.
use phantasma_sdk_rs.Prelude.{
  ◌<◌, ◌≡◌, ◌∙◌, ap, refl, arith, List, [], ◌∷◌, map, length, All, All-map, Option, some, none,
  true, list_eq, list_eq_refl, list_eq→eq, inl, inr, Bool-cases,
}
use phantasma_sdk_rs.Error.{err, PhantasmaError, serialization}
use phantasma_sdk_rs.Stream.{Bytes, fail_put}
use phantasma_sdk_rs.Stream.Codes.{Codes, Codes-bind, Codes-end, Codes-weaken, Codes-skip, then_ok}
use phantasma_sdk_rs.BigInt.{BigIntBytes}
use phantasma_sdk_rs.Carbon.Wire.{half32}
use phantasma_sdk_rs.Carbon.Wire.Laws.{Codes-64, Codes-carbon_array}
use phantasma_sdk_rs.Carbon.Payload.Witnesses.{Witness, witness_carbon}
use phantasma_sdk_rs.Carbon.Payload.Witnesses.Laws.{WitnessFits, Codes-witness}
use phantasma_sdk_rs.Carbon.Message.{TxMsg, from_address, write_tx_msg}
use phantasma_sdk_rs.Carbon.Message.Laws.{TxMsgFits, Codes-tx_msg}
use phantasma_sdk_rs.Carbon.Envelope.{
  SignedTxMsg, WitnessForm, single, pair, array, empty, witness_form, required_of,
  required_witnesses, any_signed_by, write_witnesses, read_witnesses, write_signed, read_signed,
}

abbrev pub addresses : List Witness → List Bytes
addresses = map (λ w. w.address)

-- The witnesses are the required ones in their order, or, where none are required, the gas payer is
-- one of them.
abbrev pub WitnessSet : Option (List Bytes) → TxMsg → List Witness → Type 0
WitnessSet (some required) m ws = addresses ws ≡ required
WitnessSet none m ws = any_signed_by m.gas_from ws ≡ true

abbrev pub Witnessed : SignedTxMsg → Type 0
Witnessed s = WitnessSet (required_witnesses s.msg) s.msg s.witnesses

pub record SignedTxMsgFits (s : SignedTxMsg) : Type 0 where
  pub msg : TxMsgFits s.msg
  pub witnesses_short : length s.witnesses < half32
  pub witnesses : All WitnessFits s.witnesses

Codes-single :
    (m : TxMsg) (ws : List Witness)
    → addresses ws ≡ m.gas_from ∷ []
    → All WitnessFits ws
    → Codes 0 (write_witnesses single m ws) (read_witnesses single m) ws
unfolding write_witnesses read_witnesses
Codes-single m [] e h = absurd cc
Codes-single m (w ∷ []) e (h, _) =
    let same : w.address ≡ m.gas_from = cc in
    rw (← same, list_eq_refl)
      (Codes-weaken 0 (omega arith) (Codes-end _ (Codes-64 w.signature h.signature) refl))
Codes-single m (w ∷ v ∷ ws) e h = absurd cc

Codes-pair :
    (m : TxMsg) (ws : List Witness)
    → addresses ws ≡ m.gas_from ∷ from_address m.msg ∷ []
    → All WitnessFits ws
    → Codes 0 (write_witnesses pair m ws) (read_witnesses pair m) ws
unfolding write_witnesses read_witnesses
Codes-pair m [] e h = absurd cc
Codes-pair m (w ∷ []) e h = absurd cc
Codes-pair m (w ∷ v ∷ []) e (h, (k, _)) =
    let gas : w.address ≡ m.gas_from = cc in
    let owner : v.address ≡ from_address m.msg = cc in
    rw (← gas, ← owner, list_eq_refl w.address, list_eq_refl v.address)
      (Codes-weaken 0 (omega arith) (
        Codes-bind _ (Codes-64 w.signature h.signature)
          (Codes-end _ (Codes-64 v.signature k.signature) refl)))
Codes-pair m (w ∷ v ∷ u ∷ ws) e h = absurd cc

Codes-witnesses :
    (form : WitnessForm) (m : TxMsg) (ws : List Witness)
    → WitnessSet (required_of form m) m ws
    → length ws < half32
    → All WitnessFits ws
    → Codes 0 (write_witnesses form m ws) (read_witnesses form m) ws
unfolding required_of
Codes-witnesses single m ws e short h = Codes-single m ws e h
Codes-witnesses pair m ws e short h = Codes-pair m ws e h
Codes-witnesses array m ws e short h =
    unfold write_witnesses read_witnesses in
    rw e (Codes-weaken 0 (omega arith) (Codes-carbon_array ws short (All-map Codes-witness ws h)))
Codes-witnesses empty m [] e short h = unfold write_witnesses read_witnesses in Codes-skip []
Codes-witnesses empty m (w ∷ ws) e short h = absurd cc

module _ ⦃big : BigIntBytes⦄ where
  pub Codes-signed :
      (s : SignedTxMsg) → SignedTxMsgFits s → Witnessed s → Codes 1 (write_signed s) read_signed s
  unfolding write_signed read_signed required_witnesses
  Codes-signed s h e = Codes-weaken 1 (omega arith) (
      Codes-bind _ (Codes-tx_msg s.msg h.msg) (
        Codes-end _
          (Codes-witnesses (witness_form s.msg.tx_type) s.msg s.witnesses e h.witnesses_short
            h.witnesses)
          refl))

abbrev Refused : WitnessForm → TxMsg → List Witness → Type 0
Refused form m ws = (e : PhantasmaError) × (write_witnesses form m ws ≡ fail_put e)

form-Refused_single :
    (m : TxMsg) (ws : List Witness) → ¬ (addresses ws ≡ m.gas_from ∷ []) → Refused single m ws
unfolding write_witnesses
form-Refused_single m [] h = (_, refl)
form-Refused_single m (w ∷ []) h = elim (Bool-cases (list_eq w.address m.gas_from)) [
  | inl e ↦ absurd (h (ap (λ a. a ∷ []) (list_eq→eq _ _ e)))
  | inr e ↦ (serialization "single-witness transaction address mismatch", rw e)
]
form-Refused_single m (w ∷ v ∷ ws) h = (_, refl)

form-Refused_pair :
    (m : TxMsg) (ws : List Witness)
    → ¬ (addresses ws ≡ m.gas_from ∷ from_address m.msg ∷ [])
    → Refused pair m ws
unfolding write_witnesses
form-Refused_pair m [] h = (_, refl)
form-Refused_pair m (w ∷ []) h = (_, refl)
form-Refused_pair m (w ∷ v ∷ []) h = elim (Bool-cases (list_eq w.address m.gas_from)) [
  | inr e ↦ (serialization "gas witness address mismatch", rw e)
  | inl e ↦ elim (Bool-cases (list_eq v.address (from_address m.msg))) [
    | inl d ↦ absurd (h (cc (list_eq→eq _ _ e, list_eq→eq _ _ d)))
    | inr d ↦ (serialization "from witness address mismatch", rw (e, d))
  ]
]
form-Refused_pair m (w ∷ v ∷ u ∷ ws) h = (_, refl)

refused :
    (form : WitnessForm) (m : TxMsg) (ws : List Witness)
    → ¬ WitnessSet (required_of form m) m ws
    → Refused form m ws
unfolding required_of
refused single m ws h = form-Refused_single m ws h
refused pair m ws h = form-Refused_pair m ws h
refused array m ws h = elim (Bool-cases (any_signed_by m.gas_from ws)) [
  | inl e ↦ absurd (h e)
  | inr e ↦
      unfold write_witnesses in (serialization "the gas payer must be one of the witnesses", rw e)
]
refused empty m [] h = absurd (h refl)
refused empty m (w ∷ ws) h = unfold write_witnesses in (_, refl)

module _ ⦃big : BigIntBytes⦄ where
  -- A message with other witnesses than those that its type requires is refused, whatever has been
  -- written before it. The message is one whose fields are in the ranges of their types, whose
  -- arrays are shorter than 2 ^ 31, whose small strings are UTF-8 of at most 255 bytes, whose
  -- amounts of type IntX fit a signed 256-bit word, whose type names its payload and whose calls
  -- are canonical (arguments with no list of sections, or sections with no arguments beside them,
  -- each of them a register with no arguments or arguments at offset 0).
  pub write_signed-refused :
      (s : SignedTxMsg)
      → TxMsgFits s.msg
      → ¬ Witnessed s
      → (buffer : Bytes)
      → (e : PhantasmaError) × (write_signed s (record { buffer = buffer }) ≡ err e)
  unfolding write_signed required_witnesses fail_put
  write_signed-refused s fits h buffer =
      let c : Codes 1 (write_tx_msg s.msg) _ s.msg = Codes-tx_msg s.msg fits in
      let (e, no_write) = refused (witness_form s.msg.tx_type) s.msg s.witnesses h in
      (e, then_ok _ _ _ (c.writes buffer) ∙ rw no_write)
