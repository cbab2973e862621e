-- ===== src/Carbon/Signing.antt =====
-- Signing in src/carbon.rs with keys at hand: `assert_signable`, `witness_slots` and
-- `sign_tx_msg_with_keys`. The key pairs of ed25519-dalek, behind PhantasmaKeys, are a parameter.
pub mod Slots
pub mod Laws
mod Tests
use phantasma_sdk_rs.Prelude.{
  ℕ, zero, suc, ◌^◌, List, [], ◌∷◌, map, length, Option, some, none, Bool, true, false, not, ltb,
  leb, ◌==◌, if◌then◌else◌, list_eq, ◌||◌, ◌≡◌,
}
use phantasma_sdk_rs.Error.{Result, ok, err, crypto, builder, panicked, ◌>>=◌}
use phantasma_sdk_rs.Stream.{Bytes}
use phantasma_sdk_rs.BigInt.{BigIntBytes}
use phantasma_sdk_rs.Carbon.Wire.{serialize, half64}
use phantasma_sdk_rs.Carbon.Payload.Witnesses.{Witness}
use phantasma_sdk_rs.Carbon.Payload.Fungible.{TxMsgTransferFungible, TxMsgTransferFungibleGasPayer}
use phantasma_sdk_rs.Carbon.Message.{TxType, TxPayload, TxMsg, tx_msg_carbon}
use phantasma_sdk_rs.Carbon.Envelope.{SignedTxMsg, required_witnesses}

-- The amount of a native fungible transfer.
unfoldable pub transfer_amount : TxType → TxPayload → Option ℕ
transfer_amount TxType.transfer_fungible (TxPayload.transfer_fungible body) = some body.amount
transfer_amount TxType.transfer_fungible_gas_payer (TxPayload.transfer_fungible_gas_payer body) =
    some body.amount
transfer_amount _ _ = none

unfoldable pub check_amount : Option ℕ → Result (Unit {0})
check_amount none = ok tt
check_amount (some amount) =
    if amount == 0
    then err (builder "transfer amount must be above zero for a native transfer")
    else if leb half64 amount
    then err (
        builder "transfer amount is above the int64 maximum the chain accepts in a native transfer")
    else ok tt

unfoldable pub assert_signable : TxMsg → Result (Unit {0})
unfolding transfer_amount check_amount
assert_signable m =
    if m.max_gas == 0
    then err (builder "transaction has no gas offer: plan its fees or set max_gas before signing")
    else check_amount (transfer_amount m.tx_type m.msg)

-- `addresses.iter().position(|candidate| candidate == address)`
unfoldable pub position : Bytes → List Bytes → Option ℕ
position address [] = none
position address (candidate ∷ addresses) =
    let rest = position address addresses in
    if list_eq candidate address
    then some 0
    else elim rest [ none ↦ none | some index ↦ some (suc index) ]

unfoldable pub contains : List Bytes → Bytes → Bool
contains [] address = false
contains (candidate ∷ addresses) address = list_eq candidate address || contains addresses address

-- A witness slot: an address, and the index of the signer that owns it.
abbrev pub Slot : Type 0
Slot = Bytes × ℕ

-- The loop over the required addresses.
unfoldable pub owned_slots : List Bytes → List Bytes → Result (List Slot)
unfolding position
owned_slots addresses [] = ok []
owned_slots addresses (address ∷ required) = elim (position address addresses) [
  | none ↦ err (builder "no signer for witness")
  | some index ↦ owned_slots addresses required >>= λ slots. ok ((address, index) ∷ slots)
]

-- The loop over the addresses of the signers.
unfoldable pub refuse_strays : List Bytes → List Bytes → Result (Unit {0})
unfolding contains
refuse_strays required [] = ok tt
refuse_strays required (address ∷ addresses) =
    let rest = refuse_strays required addresses in
    if contains required address
    then rest
    else err (builder "signer is not a witness of this transaction")

unfoldable pub required_slots : List Bytes → List Bytes → Result (List Slot)
unfolding owned_slots refuse_strays
required_slots [] [] = ok []
required_slots [] (address ∷ addresses) = err (builder "transactions carry no witnesses")
required_slots (first ∷ required) addresses = do
  slots ← owned_slots addresses (first ∷ required)
  refuse_strays (first ∷ required) addresses >>= λ _. ok slots

-- `addresses.iter().enumerate().map(|(index, address)| (*address, index))` from an index on.
unfoldable pub enumerate : ℕ → List Bytes → List Slot
enumerate index [] = []
enumerate index (address ∷ addresses) = (address, index) ∷ enumerate (suc index) addresses

unfoldable pub array_slots : Bytes → List Bytes → Result (List Slot)
unfolding contains enumerate
array_slots gas_from [] = err (builder "transactions need at least one witness")
array_slots gas_from (first ∷ addresses) =
    if contains (first ∷ addresses) gas_from
    then ok (enumerate 0 (first ∷ addresses))
    else err (builder "the gas payer must be one of the witnesses")

unfoldable pub witness_slots : TxMsg → List Bytes → Result (List Slot)
unfolding required_slots array_slots required_witnesses
witness_slots m addresses = elim (required_witnesses m) [
  | some required ↦ required_slots required addresses
  | none ↦ array_slots m.gas_from addresses
]

unfoldable pub bytes32_from_public_key : Bytes → Result Bytes
bytes32_from_public_key public_key =
    if length public_key == 32 then ok public_key else err (crypto "public key length must be 32")

-- A key pair of the signature scheme: its public key, and the 64 bytes that it signs a message with.
pub record KeyPairs : Type 1 where
  pub Key : Type 0
  pub public_key : Key → Bytes
  pub sign : Key → Bytes → Bytes
  pub sign-long : (key : Key) (message : Bytes) → length (sign key message) ≡ 64

-- `signatures[signer]`
unfoldable pub get_elem? : List Bytes → ℕ → Option Bytes
get_elem? [] index = none
get_elem? (x ∷ xs) zero = some x
get_elem? (x ∷ xs) (suc index) = get_elem? xs index

unfoldable pub witnesses_of : List Bytes → List Slot → Result (List Witness)
unfolding get_elem?
witnesses_of signatures [] = ok []
witnesses_of signatures ((address, signer) ∷ slots) = elim (get_elem? signatures signer) [
  | none ↦ err (panicked "index out of bounds")
  | some signature ↦ witnesses_of signatures slots >>= λ witnesses.
      ok (record { address = address; signature = signature } ∷ witnesses)
]

module _ (pairs : KeyPairs) where
  unfoldable pub addresses_of : List pairs.Key → Result (List Bytes)
  unfolding bytes32_from_public_key
  addresses_of [] = ok []
  addresses_of (key ∷ keys) = do
    address ← bytes32_from_public_key (pairs.public_key key)
    addresses ← addresses_of keys
    ok (address ∷ addresses)

  unfoldable pub sign_tx_msg_with_keys :
      ⦃big : BigIntBytes⦄ → TxMsg → List pairs.Key → Result SignedTxMsg
  unfolding assert_signable addresses_of witness_slots witnesses_of
  sign_tx_msg_with_keys m keys = assert_signable m >>= λ _. addresses_of keys >>= λ addresses.
      witness_slots m addresses >>= λ slots. serialize m >>= λ message.
      witnesses_of (map (λ key. pairs.sign key message) keys) slots >>= λ witnesses.
      ok (record { msg = m; witnesses = witnesses })
