-- ===== src/Carbon/Envelope/Kept.antt =====
-- What the bytes of a signed message of src/carbon.rs keep of it: its witnesses, and its message but
-- for the calls.
use phantasma_sdk_rs.Prelude.{
  ◌<◌, ◌≡◌, refl, ap, sym, subst, List, [], ◌∷◌, length, All, Option, some, none,
}
use phantasma_sdk_rs.BigInt.{BigIntBytes}
use phantasma_sdk_rs.Stream.{Bytes}
use phantasma_sdk_rs.Carbon.Wire.{half32}
use phantasma_sdk_rs.Carbon.Payload.Witnesses.{Witness}
use phantasma_sdk_rs.Carbon.Payload.Witnesses.Laws.{WitnessFits}
use phantasma_sdk_rs.Carbon.Message.{TxMsg}
use phantasma_sdk_rs.Carbon.Message.Kept.{
  kept_msg, TxMsgInRange, kept_msg-Fits, write_tx_msg-kept_msg, from_address-kept_payload,
}
use phantasma_sdk_rs.Carbon.Envelope.{
  SignedTxMsg, WitnessForm, single, pair, array, empty, witness_form, required_of,
  required_witnesses, write_witnesses, write_single, write_pair, write_array, write_signed,
}
use phantasma_sdk_rs.Carbon.Envelope.Laws.{WitnessSet, Witnessed, SignedTxMsgFits}

unfoldable pub kept_signed : SignedTxMsg → SignedTxMsg
unfolding kept_msg
kept_signed s = record s { msg = kept_msg s.msg }

-- A message in range, with fewer than 2 ^ 31 witnesses of 32-byte addresses and 64-byte signatures.
pub record SignedTxMsgInRange (s : SignedTxMsg) : Type 0 where
  pub msg : TxMsgInRange s.msg
  pub witnesses_short : length s.witnesses < half32
  pub witnesses : All WitnessFits s.witnesses

pub kept_signed-Fits : (s : SignedTxMsg) → SignedTxMsgInRange s → SignedTxMsgFits (kept_signed s)
unfolding kept_signed
kept_signed-Fits s h = record {
  msg = kept_msg-Fits s.msg h.msg;
  witnesses_short = h.witnesses_short;
  witnesses = h.witnesses;
}

required_of-kept_msg :
    (form : WitnessForm) (m : TxMsg) → required_of form (kept_msg m) ≡ required_of form m
unfolding required_of kept_msg
required_of-kept_msg single m = refl
required_of-kept_msg pair m =
    ap (λ owner. some (m.gas_from ∷ owner ∷ [])) (from_address-kept_payload m.msg)
required_of-kept_msg array m = refl
required_of-kept_msg empty m = refl

-- The set depends on the message by its gas payer alone.
WitnessSet-kept_msg :
    (required : Option (List Bytes)) (m : TxMsg) (ws : List Witness)
    → WitnessSet required m ws
    → WitnessSet required (kept_msg m) ws
unfolding kept_msg
WitnessSet-kept_msg (some required) m ws h = h
WitnessSet-kept_msg none m ws h = h

pub kept_signed-Witnessed : (s : SignedTxMsg) → Witnessed s → Witnessed (kept_signed s)
unfolding kept_signed required_witnesses kept_msg
kept_signed-Witnessed s h =
    subst (λ required. WitnessSet required (kept_msg s.msg) s.witnesses)
      (sym (required_of-kept_msg (witness_form s.msg.tx_type) s.msg))
      (WitnessSet-kept_msg (required_witnesses s.msg) s.msg s.witnesses h)

write_witnesses-kept_msg :
    (form : WitnessForm) (m : TxMsg) (ws : List Witness)
    → write_witnesses form (kept_msg m) ws ≡ write_witnesses form m ws
unfolding write_witnesses kept_msg write_single write_pair write_array
write_witnesses-kept_msg single m [] = refl
write_witnesses-kept_msg single m (w ∷ []) = refl
write_witnesses-kept_msg single m (w ∷ v ∷ ws) = refl
write_witnesses-kept_msg pair m [] = refl
write_witnesses-kept_msg pair m (w ∷ []) = refl
write_witnesses-kept_msg pair m (w ∷ v ∷ []) = rw (from_address-kept_payload m.msg)
write_witnesses-kept_msg pair m (w ∷ v ∷ u ∷ ws) = refl
write_witnesses-kept_msg array m ws = refl
write_witnesses-kept_msg empty m ws = refl

module _ ⦃big : BigIntBytes⦄ where
  -- A signed message and what is kept of it have the same bytes.
  pub write_signed-kept_signed : (s : SignedTxMsg) → write_signed (kept_signed s) ≡ write_signed s
  unfolding write_signed kept_signed
  write_signed-kept_signed s =
      rw (write_tx_msg-kept_msg s.msg, write_witnesses-kept_msg _ s.msg s.witnesses)
