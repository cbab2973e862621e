-- ===== src/Carbon/Envelope/Size.antt =====
-- The size of a signed message: what `envelope_bytes` of src/carbon.rs finds with placeholders is the
-- size of every signed form of the message.
use phantasma_sdk_rs.Prelude.{
  ℕ, ◌+◌, ◌*◌, ◌<◌, ◌≡◌, ◌∙◌, ap, refl, arith, List, [], ◌∷◌, ◌++◌, length, All, append-nil,
  append_assoc, length-append, true, false, Bool, list_eq_refl,
}
use phantasma_sdk_rs.Error.{ok}
use phantasma_sdk_rs.Stream.{Bytes, Put, Get, ◌▹◌, skip, write, write_many}
use phantasma_sdk_rs.Stream.Codes.{Codes, then_ok, length-le_bytes}
use phantasma_sdk_rs.BigInt.{BigIntBytes}
use phantasma_sdk_rs.Carbon.Wire.{
  CarbonSerializable, half32, serialize, write4, write32, write64, write_carbon_array,
}
use phantasma_sdk_rs.Carbon.Wire.Laws.{write_length_lem, serialize-bytes}
use phantasma_sdk_rs.Carbon.Payload.Witnesses.{Witness, write_witness, witness_carbon}
use phantasma_sdk_rs.Carbon.Payload.Witnesses.Laws.{WitnessFits}
use phantasma_sdk_rs.Carbon.Message.{TxMsg, write_tx_msg, tx_msg_carbon, from_address}
use phantasma_sdk_rs.Carbon.Message.Laws.{Codes-tx_msg}
use phantasma_sdk_rs.Carbon.Envelope.{
  SignedTxMsg, WitnessForm, single, pair, array, empty, witness_form, required_of,
  required_witnesses, write_witnesses, write_signed, signed_carbon,
}
use phantasma_sdk_rs.Carbon.Envelope.Laws.{WitnessSet, Witnessed, SignedTxMsgFits}

-- `put` appends certain bytes, `size` of them.
record Puts (size : ℕ) (put : Put) : Type 0 where
  bytes : Bytes
  long : length bytes ≡ size
  writes :
      (buffer : Bytes) → put (record { buffer = buffer }) ≡ ok (record { buffer = buffer ++ bytes })

Puts-skip : Puts 0 skip
unfolding skip
Puts-skip = record { bytes = []; long = refl; writes = λ buffer. rw append-nil }

Puts-write : (size : ℕ) (bytes : Bytes) → length bytes ≡ size → Puts size (write bytes)
unfolding write
Puts-write size bytes h = record { bytes = bytes; long = h; writes = λ buffer. refl }

Puts-then : {n k : ℕ} {p q : Put} → Puts n p → Puts k q → Puts (n + k) (p ▹ q)
Puts-then {p} {q} c d = record {
  bytes = c.bytes ++ d.bytes;
  long = omega (arith, length-append c.bytes d.bytes, c.long, d.long);
  writes = λ buffer.
      then_ok p q _ (c.writes buffer)
      ∙ d.writes (buffer ++ c.bytes)
      ∙ ap (λ t. ok (record { buffer = t })) (append_assoc buffer c.bytes d.bytes);
}

Puts-size : {n : ℕ} (k : ℕ) {p : Put} → n ≡ k → Puts n p → Puts k p
Puts-size k e c = record { bytes = c.bytes; long = c.long ∙ e; writes = c.writes }

Puts-witness : (w : Witness) → WitnessFits w → Puts 96 (write_witness w)
unfolding write_witness write32 write64
Puts-witness w h =
    Puts-then (Puts-write 32 w.address h.address) (Puts-write 64 w.signature h.signature)

Puts-many :
    (ws : List Witness) → All WitnessFits ws → Puts (96 * length ws) (write_many write_witness ws)
unfolding write_many
Puts-many [] h = Puts-skip
Puts-many (w ∷ ws) (h, hs) =
    Puts-size (96 * length (w ∷ ws)) (omega arith) (Puts-then (Puts-witness w h) (Puts-many ws hs))

Puts-array :
    (ws : List Witness)
    → length ws < half32
    → All WitnessFits ws
    → Puts (4 + 96 * length ws) (write_carbon_array ws)
unfolding write_carbon_array write4
Puts-array ws h hs =
    rw (write_length_lem (length ws) h)
      (Puts-then (Puts-write 4 _ (length-le_bytes 4 _)) (Puts-many ws hs))

-- Whether the signatures stand alone, and what a number of witnesses takes.
unfoldable pub is_bare : WitnessForm → Bool
is_bare array = false
is_bare _ = true

unfoldable pub witness_size : Bool → ℕ → ℕ
witness_size true count = 64 * count
witness_size false count = 4 + 96 * count

Puts-witnesses :
    (form : WitnessForm) (m : TxMsg) (ws : List Witness)
    → WitnessSet (required_of form m) m ws
    → length ws < half32
    → All WitnessFits ws
    → Puts (witness_size (is_bare form) (length ws)) (write_witnesses form m ws)
unfolding required_of is_bare witness_size write_witnesses write64
Puts-witnesses single m [] e short h = absurd cc
Puts-witnesses single m (w ∷ []) e short (h, _) =
    let same : w.address ≡ m.gas_from = cc in
    rw (← same, list_eq_refl) (Puts-write 64 w.signature h.signature)
Puts-witnesses single m (w ∷ v ∷ ws) e short h = absurd cc
Puts-witnesses pair m [] e short h = absurd cc
Puts-witnesses pair m (w ∷ []) e short h = absurd cc
Puts-witnesses pair m (w ∷ v ∷ []) e short (h, (k, _)) =
    let gas : w.address ≡ m.gas_from = cc in
    let owner : v.address ≡ from_address m.msg = cc in
    rw (← gas, ← owner, list_eq_refl w.address, list_eq_refl v.address)
      (Puts-then (Puts-write 64 w.signature h.signature) (Puts-write 64 v.signature k.signature))
Puts-witnesses pair m (w ∷ v ∷ u ∷ ws) e short h = absurd cc
Puts-witnesses array m ws e short h = rw e (Puts-array ws short h)
Puts-witnesses empty m [] e short h = Puts-skip
Puts-witnesses empty m (w ∷ ws) e short h = absurd cc

Puts-Codes :
    {A : Type 0} {n : ℕ} {p : Put} {q : Get A} {a : A}
    → (c : Codes n p q a) → Puts (length c.bytes) p
Puts-Codes c = record { bytes = c.bytes; long = refl; writes = c.writes }

module _ {A : Type 0} ⦃c : CarbonSerializable A⦄ where
  serialize-Puts : {n : ℕ} (a : A) (d : Puts n (c.write_carbon a)) → serialize a ≡ ok d.bytes
  unfolding serialize
  serialize-Puts a d = rw (d.writes [], serialize)

module _ ⦃big : BigIntBytes⦄ where
  -- The bytes of a signed message, of which the number is known from those of its message.
  abbrev SizedAs : SignedTxMsg → Type 0
  SizedAs s =
      (msg : Bytes) × (out : Bytes) × (serialize s.msg ≡ ok msg)
      × (serialize s ≡ ok out)
      × (length out
          ≡ length msg + witness_size (is_bare (witness_form s.msg.tx_type)) (length s.witnesses))

  pub length-serialize : (s : SignedTxMsg) → SignedTxMsgFits s → Witnessed s → SizedAs s
  unfolding write_signed required_witnesses
  length-serialize s h e =
      let c : Codes 1 (write_tx_msg s.msg) _ s.msg = Codes-tx_msg s.msg h.msg in
      let d =
        Puts-witnesses (witness_form s.msg.tx_type) s.msg s.witnesses e h.witnesses_short
          h.witnesses in
      let both : Puts _ (write_signed s) = Puts-then (Puts-Codes c) d in
      (c.bytes, both.bytes, serialize-bytes s.msg c, serialize-Puts s both, both.long)
