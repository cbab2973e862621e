-- ===== src/Carbon/Signing/Slots.antt =====
-- The slots that src/carbon.rs pairs with signers are those that the message requires, and each of
-- them is owned by its signer.
use phantasma_sdk_rs.Prelude.{
  ℕ, zero, suc, ◌+◌, ◌≡◌, refl, sym, ◌∙◌, ap, subst, arith, List, [], ◌∷◌, map, length, Option,
  some, none, true, Bool-cases, ◌⊎◌, inl, inr, list_eq→eq, All, All-map,
}
use phantasma_sdk_rs.Error.{ok, err, builder, panicked, ok-injective, ◌>>=◌, chain_steps}
use phantasma_sdk_rs.Stream.{Bytes}
use phantasma_sdk_rs.Carbon.Payload.Witnesses.{Witness}
use phantasma_sdk_rs.Carbon.Envelope.Laws.{addresses}
use phantasma_sdk_rs.Carbon.Signing.{
  position, contains, Slot, owned_slots, refuse_strays, required_slots, enumerate, array_slots,
  get_elem?, witnesses_of,
}

abbrev pub places : List Slot → List Bytes
places = map (λ slot. slot.0)

-- The signer at the index of a slot has the address of the slot.
abbrev pub Owned : List Bytes → Slot → Type 0
Owned addresses slot = get_elem? addresses slot.1 ≡ some slot.0

get_elem?-position :
    (address : Bytes) (xs : List Bytes) (index : ℕ)
    → position address xs ≡ some index
    → get_elem? xs index ≡ some address
unfolding position get_elem?
get_elem?-position address [] index h = absurd cc
get_elem?-position address (x ∷ xs) zero h = ground (arith, list_eq→eq x address)
get_elem?-position address (x ∷ xs) (suc index) h =
    ground (arith, get_elem?-position address xs index)

no_owner :
    (xs : List Bytes) (address : Bytes) (required : List Bytes)
    → position address xs ≡ none
    → owned_slots xs (address ∷ required) ≡ err (builder "no signer for witness")
unfolding owned_slots
no_owner xs address required e = rw (e, owned_slots)

one_owner :
    (xs : List Bytes) (address : Bytes) (required : List Bytes) (index : ℕ)
    → position address xs ≡ some index
    → owned_slots xs (address ∷ required)
      ≡ (owned_slots xs required >>= λ slots. ok ((address, index) ∷ slots))
unfolding owned_slots
one_owner xs address required index e = rw (e, owned_slots)

-- The steps of the loop that answers slots.
owned_step :
    (xs : List Bytes) (address : Bytes) (required : List Bytes) (found : Option ℕ)
    {slots : List Slot}
    → position address xs ≡ found
    → owned_slots xs (address ∷ required) ≡ ok slots
    → (index : ℕ) × (rest : List Slot) × (position address xs ≡ some index)
      × (owned_slots xs required ≡ ok rest)
      × ((address, index) ∷ rest ≡ slots)
owned_step xs address required none e h = absurd (cc (no_owner xs address required e, h))
owned_step xs address required (some index) e h =
    let (rest, last, first) =
      chain_steps (λ slots. ok ((address, index) ∷ slots)) (owned_slots xs required)
        (sym (one_owner xs address required index e) ∙ h) in
    (index, rest, e, first, ok-injective last)

-- The slots that the loop answers have the required addresses in their order, and owners.
abbrev pub IsFilled : List Bytes → List Bytes → List Slot → Type 0
IsFilled xs required slots = (places slots ≡ required) × All (Owned xs) slots

owned_slots-IsFilled :
    (xs required : List Bytes) (slots : List Slot)
    → owned_slots xs required ≡ ok slots
    → IsFilled xs required slots
owned_slots-IsFilled xs [] slots h =
    let e : [] ≡ slots = ok-injective (unfold owned_slots in h) in
    subst (IsFilled xs []) e (refl, tt)
owned_slots-IsFilled xs (address ∷ required) slots h =
    let (index, rest, found, loop, e) =
      owned_step xs address required (position address xs) refl h in
    let (same, owned) = owned_slots-IsFilled xs required rest loop in
    subst (IsFilled xs (address ∷ required)) e
      (ap (λ t. address ∷ t) same, (get_elem?-position address xs index found, owned))

pub required_slots-IsFilled :
    (xs required : List Bytes) (slots : List Slot)
    → required_slots required xs ≡ ok slots
    → IsFilled xs required slots
unfolding required_slots
required_slots-IsFilled [] [] slots h = subst (IsFilled [] []) (ok-injective h) (refl, tt)
required_slots-IsFilled (x ∷ xs) [] slots h = absurd cc
required_slots-IsFilled xs (first ∷ required) slots h =
    let (found, checked, loop) =
      chain_steps (λ found. refuse_strays (first ∷ required) xs >>= λ _. ok found)
        (owned_slots xs (first ∷ required)) h in
    let (_, same, _) = chain_steps (λ _. ok found) (refuse_strays (first ∷ required) xs) checked in
    subst (IsFilled xs (first ∷ required)) (ok-injective same)
      (owned_slots-IsFilled xs (first ∷ required) found loop)

-- An index counted from `from` stands for a place in the list.
abbrev OwnedFrom : ℕ → List Bytes → Slot → Type 0
OwnedFrom from xs slot = (place : ℕ) × (slot.1 ≡ from + place) × (get_elem? xs place ≡ some slot.0)

OwnedFrom-shift :
    (from : ℕ) (x : Bytes) (xs : List Bytes) (slot : Slot)
    → OwnedFrom (suc from) xs slot
    → OwnedFrom from (x ∷ xs) slot
unfolding get_elem?
OwnedFrom-shift from x xs slot (place, e, h) = (suc place, omega arith, h)

enumerate-OwnedFrom :
    (from : ℕ) (xs : List Bytes)
    → (places (enumerate from xs) ≡ xs) × All (OwnedFrom from xs) (enumerate from xs)
unfolding enumerate
enumerate-OwnedFrom from [] = (refl, tt)
enumerate-OwnedFrom from (x ∷ xs) =
    let (same, owned) = enumerate-OwnedFrom (suc from) xs in
    (
      ap (λ t. x ∷ t) same,
      ((0, omega arith, unfold get_elem? in refl), All-map (OwnedFrom-shift from x xs) _ owned),
    )

OwnedFrom-zero : (xs : List Bytes) (slot : Slot) → OwnedFrom 0 xs slot → Owned xs slot
OwnedFrom-zero xs slot (place, e, h) =
    let same : place ≡ slot.1 = omega arith in subst (λ t. get_elem? xs t ≡ some slot.0) same h

pub array_slots-IsFilled :
    (gas_from : Bytes) (xs : List Bytes) (slots : List Slot)
    → array_slots gas_from xs ≡ ok slots
    → (contains xs gas_from ≡ true) × IsFilled xs xs slots
unfolding array_slots
array_slots-IsFilled gas_from [] slots h = absurd cc
array_slots-IsFilled gas_from (x ∷ xs) slots h = elim (Bool-cases (contains (x ∷ xs) gas_from)) [
  | inl e ↦
      let (same, owned) = enumerate-OwnedFrom 0 (x ∷ xs) in
      let numbered : enumerate 0 (x ∷ xs) ≡ slots = ground arith in
      (
        e,
        subst (IsFilled (x ∷ xs) (x ∷ xs)) numbered
            (same, All-map (OwnedFrom-zero (x ∷ xs)) (enumerate 0 (x ∷ xs)) owned),
      )
  | inr e ↦ absurd (ground arith)
]

Option-cases : (o : Option Bytes) → (o ≡ none) ⊎ ((x : Bytes) × (o ≡ some x))
Option-cases none = inl refl
Option-cases (some x) = inr (x, refl)

-- A witness whose address and signature stand at one place of two lists.
abbrev pub Paired : List Bytes → List Bytes → Witness → Type 0
Paired xs signatures w =
    (place : ℕ) × (get_elem? xs place ≡ some w.address)
    × (get_elem? signatures place ≡ some w.signature)

no_signature :
    (signatures : List Bytes) (address : Bytes) (signer : ℕ) (slots : List Slot)
    → get_elem? signatures signer ≡ none
    → witnesses_of signatures ((address, signer) ∷ slots) ≡ err (panicked "index out of bounds")
unfolding witnesses_of
no_signature signatures address signer slots e = rw (e, witnesses_of)

one_signature :
    (signatures : List Bytes) (address : Bytes) (signer : ℕ) (slots : List Slot) (signature : Bytes)
    → get_elem? signatures signer ≡ some signature
    → witnesses_of signatures ((address, signer) ∷ slots) ≡ (
        witnesses_of signatures slots >>= λ ws.
        ok (record { address = address; signature = signature } ∷ ws))
unfolding witnesses_of
one_signature signatures address signer slots signature e = rw (e, witnesses_of)

pub witnesses_of-Paired :
    (xs signatures : List Bytes) (slots : List Slot) (ws : List Witness)
    → All (Owned xs) slots
    → witnesses_of signatures slots ≡ ok ws
    → (addresses ws ≡ places slots) × All (Paired xs signatures) ws
witnesses_of-Paired xs signatures [] ws owned h =
    let e : [] ≡ ws = ok-injective (unfold witnesses_of in h) in
    subst (λ t. (addresses t ≡ []) × All (Paired xs signatures) t) e (refl, tt)
witnesses_of-Paired xs signatures ((address, signer) ∷ slots) ws (own, owned) h =
    elim (Option-cases (get_elem? signatures signer)) [
      | inl e ↦ absurd (cc (no_signature signatures address signer slots e, h))
      | inr (signature, e) ↦
          let (rest, last, loop) =
            chain_steps (λ ws. ok (record { address = address; signature = signature } ∷ ws))
              (witnesses_of signatures slots)
              (sym (one_signature signatures address signer slots signature e) ∙ h) in
          let (same, paired) = witnesses_of-Paired xs signatures slots rest owned loop in
          subst (λ t. (addresses t ≡ address ∷ places slots) × All (Paired xs signatures) t)
            (ok-injective last) (ap (λ t. address ∷ t) same, ((signer, own, e), paired))
    ]

same_place :
    (xs ys : List Bytes) (place : ℕ) (x : Bytes)
    → length xs ≡ length ys
    → get_elem? xs place ≡ some x
    → (y : Bytes) × (get_elem? ys place ≡ some y)
unfolding get_elem?
same_place [] ys place x e h = absurd cc
same_place (z ∷ xs) [] place x e h = absurd (omega arith)
same_place (z ∷ xs) (y ∷ ys) zero x e h = (y, refl)
same_place (z ∷ xs) (y ∷ ys) (suc place) x e h = same_place xs ys place x (omega arith) h

-- No slot with an owner is out of the bounds of the signatures.
pub witnesses_of-total :
    (xs signatures : List Bytes) (slots : List Slot)
    → length xs ≡ length signatures
    → All (Owned xs) slots
    → (ws : List Witness) × (witnesses_of signatures slots ≡ ok ws)
witnesses_of-total xs signatures [] e h = ([], unfold witnesses_of in refl)
witnesses_of-total xs signatures ((address, signer) ∷ slots) e (own, owned) =
    let (signature, found) = same_place xs signatures signer address e own in
    let (ws, rest) = witnesses_of-total xs signatures slots e owned in
    (
      record { address = address; signature = signature } ∷ ws,
      one_signature signatures address signer slots signature found ∙ rw rest,
    )
