-- ===== src/Carbon/Governance.antt =====
-- The governance module of src/carbon.rs: its method ids and the arguments for registering a name,
-- with the 32 bytes that stand for a public key or an address there.
use phantasma_sdk_rs.Prelude.{
  ℕ, ◌≡◌, refl, sym, ◌∙◌, subst, not, ◌∷◌, ◌==◌, ◌||◌, if◌then◌else◌, length, drop, list_eq,
}
use phantasma_sdk_rs.Error.{Result, ok, err, crypto, serialization, ok-injective}
use phantasma_sdk_rs.Stream.{Bytes, Put, Get, ◌▹◌, pure, ◌>>=◌}
use phantasma_sdk_rs.Stream.Codes.{Codes, Codes-bind, Codes-end}
use phantasma_sdk_rs.Crypto.{Address, AddressKind, kind_eq, kind, is_null, null, from_public_key}
use phantasma_sdk_rs.Carbon.Wire.{CarbonSerializable, write32, read32}
use phantasma_sdk_rs.Carbon.Wire.Laws.{Codes-32}
use phantasma_sdk_rs.Carbon.Signing.{bytes32_from_public_key}
use phantasma_sdk_rs.Carbon.SmallString.{
  SmallString, write_small_string, read_small_string, IsSmall, Codes-small_string,
}

data GovernanceContractMethod : Type 0 where
  register_name set_gas_config : GovernanceContractMethod

-- `method as u32`.
unfoldable governance_method_id : GovernanceContractMethod → ℕ
governance_method_id GovernanceContractMethod.register_name = 1
governance_method_id GovernanceContractMethod.set_gas_config = 3

record RegisterNameArgs : Type 0 where
  address : Bytes
  name : SmallString

unfoldable write_register_name : RegisterNameArgs → Put
write_register_name args = write32 args.address ▹ write_small_string args.name

unfoldable read_register_name : Get RegisterNameArgs
read_register_name = do
  address ← read32
  name ← read_small_string
  pure (record { address = address; name = name })

instance abbrev register_name_carbon : CarbonSerializable RegisterNameArgs
register_name_carbon = record {
  write_carbon = write_register_name;
  read_carbon = read_register_name;
}

unfoldable bytes32_try_from_slice : Bytes → Result Bytes
bytes32_try_from_slice data_bytes =
    if length data_bytes == 32
    then ok data_bytes
    else err (serialization "Bytes32 length must be 32")

unfoldable bytes32_from_phantasma_address : Address → Result Bytes
unfolding kind_eq bytes32_try_from_slice
bytes32_from_phantasma_address address =
    if not (kind_eq (kind address) AddressKind.user || kind_eq (kind address) AddressKind.system)
    then err (crypto "unsupported address kind")
    else bytes32_try_from_slice (drop 2 address)

-- The address of a public key stands for the 32 bytes that the key itself does.
bytes32_from_phantasma_address-from_public_key :
    (public_key : Bytes) (address : Address)
    → length public_key ≡ 32
    → from_public_key public_key ≡ ok address
    → bytes32_from_phantasma_address address ≡ bytes32_from_public_key public_key
unfolding from_public_key bytes32_from_public_key
bytes32_from_phantasma_address-from_public_key public_key address size h =
    let made : from_public_key public_key ≡ ok (1 ∷ 0 ∷ public_key) = rw size in
    subst (λ t. bytes32_from_phantasma_address t ≡ bytes32_from_public_key public_key)
      (ok-injective (sym made ∙ h)) (own public_key size)
  where
    own :
        (key : Bytes)
        → length key ≡ 32
        → bytes32_from_phantasma_address (1 ∷ 0 ∷ key) ≡ bytes32_from_public_key key
    own key size =
        unfold bytes32_from_phantasma_address bytes32_try_from_slice kind is_null list_eq null
          kind_eq bytes32_from_public_key in
        rw size

-- The field of type SmallString is small, and the address has 32 bytes.
record RegisterNameFits (args : RegisterNameArgs) : Type 0 where
  address : length args.address ≡ 32
  name : IsSmall args.name

Codes-register_name :
    (args : RegisterNameArgs)
    → RegisterNameFits args
    → Codes 33 (write_register_name args) read_register_name args
unfolding write_register_name read_register_name
Codes-register_name args h =
    Codes-bind _ (Codes-32 args.address h.address)
      (Codes-end _ (Codes-small_string args.name h.name) refl)
