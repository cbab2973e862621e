-- ===== src/Crypto.antt =====
-- src/crypto.rs and the Base58 of src/encoding.rs: addresses, hashes, signatures and keys. The crates
-- bs58, sha2 and ed25519_dalek are a parameter with their documented behaviour.
pub mod Laws
pub mod Wif
pub mod Model
mod Tests
use phantasma_sdk_rs.Prelude.{
  ℕ, zero, suc, ◌+◌, ◌-◌, ◌*◌, ◌≤◌, ◌≡◌, List, [], ◌∷◌, ◌++◌, Bool, true, false, not, ◌||◌, ◌&&◌,
  ltb, leb, ◌==◌, if◌then◌else◌, length, take, drop, replicate, get_or, list_eq, All, bit_and, ◌^◌,
}
use phantasma_sdk_rs.Error.{Result, ok, err, encoding, crypto, panicked, ◌>>=◌}
use phantasma_sdk_rs.Stream.{Bytes}
use phantasma_sdk_rs.Stream.Bytes.{IsByte}
use phantasma_sdk_rs.Text.Ascii.{ascii, eq_ignore_ascii_case}

abbrev pub address_length : ℕ
address_length = 34

abbrev pub private_key_length : ℕ
private_key_length = 32

abbrev pub public_key_length : ℕ
public_key_length = 32

abbrev pub signature_length : ℕ
signature_length = 64

abbrev pub base58_alphabet : Bytes
base58_alphabet = ascii "123456789ABCDEFGHJKLMNPQRSTUVWXYZabcdefghijkmnopqrstuvwxyz"

unfoldable pub in_alphabet : ℕ → Bytes → Bool
in_alphabet c [] = false
in_alphabet c (b ∷ bytes) = let rest = in_alphabet c bytes in (c == b) || rest

unfoldable pub all_base58 : Bytes → Bool
unfolding in_alphabet
all_base58 [] = true
all_base58 (c ∷ text) = in_alphabet c base58_alphabet && all_base58 text

pub record CryptoLibrary : Type 0 where
  -- `bs58::encode` and `bs58::decode` with the Bitcoin alphabet.
  pub bs58_encode : Bytes → Bytes
  pub bs58_decode : Bytes → Result Bytes
  -- `Sha256::digest`.
  pub sha256 : Bytes → Bytes
  -- The verifying key of a signing key, a signature of a message, and `VerifyingKey::from_bytes`
  -- followed by `verify`, which is false for bytes that are no key.
  pub verifying_key : Bytes → Bytes
  pub sign_message : Bytes → Bytes → Bytes
  pub verifies : Bytes → Bytes → Bytes → Bool
  pub bs58_decode-bs58_encode :
      (data_bytes : Bytes)
      → All IsByte data_bytes
      → bs58_decode (bs58_encode data_bytes) ≡ ok data_bytes
  pub bs58_encode_alphabet :
      (data_bytes : Bytes) → All IsByte data_bytes → all_base58 (bs58_encode data_bytes) ≡ true
  -- A text is as long as its bytes at least.
  pub bs58_encode_long :
      (data_bytes : Bytes)
      → All IsByte data_bytes
      → length data_bytes ≤ length (bs58_encode data_bytes)
  pub sha256-IsByte : (data_bytes : Bytes) → All IsByte (sha256 data_bytes)
  pub length-sha256 : (data_bytes : Bytes) → length (sha256 data_bytes) ≡ 32
  pub length-verifying_key : (private_key : Bytes) → length (verifying_key private_key) ≡ 32
  pub length-sign_message :
      (private_key message : Bytes) → length (sign_message private_key message) ≡ 64
  -- A signature verifies under the key of its signer.
  pub verifies-sign_message :
      (private_key message : Bytes)
      → verifies (verifying_key private_key) message (sign_message private_key message) ≡ true

pub data AddressKind : Type 0 where
  invalid user system interop : AddressKind

unfoldable pub kind_byte : AddressKind → ℕ
kind_byte AddressKind.invalid = 0
kind_byte AddressKind.user = 1
kind_byte AddressKind.system = 2
kind_byte AddressKind.interop = 3

-- `==` on the enum.
unfoldable pub kind_eq : AddressKind → AddressKind → Bool
unfolding kind_byte
kind_eq kind other = kind_byte kind == kind_byte other

-- `SignatureKind::Ed25519 as u8`.
abbrev pub ed25519_kind : ℕ
ed25519_kind = 1

-- An address, a hash, a signature and a private key are their bytes.
abbrev pub Address : Type 0
Address = Bytes

-- `[u8; n]::try_from`, whose error each caller makes its own.
unfoldable pub sized : ℕ → Bytes → Result Bytes
sized n data_bytes =
    if length data_bytes == n then ok data_bytes else err (crypto "length must be another")

unfoldable pub address_try_from_slice : Bytes → Result Address
unfolding sized
address_try_from_slice data_bytes = sized address_length data_bytes

unfoldable pub null : Address
null = replicate address_length 0

unfoldable pub is_null : Address → Bool
unfolding null
is_null address = list_eq address null

-- The first byte is there: an address has 34.
unfoldable pub kind : Address → AddressKind
unfolding is_null
kind address =
    let first = get_or address 0 0 in
    if is_null address
    then AddressKind.system
    else if first == 1
    then AddressKind.user
    else if first == 2
    then AddressKind.system
    else if leb 3 first
    then AddressKind.interop
    else AddressKind.invalid

unfoldable pub from_public_key : Bytes → Result Address
from_public_key public_key =
    if length public_key == public_key_length
    then ok (1 ∷ 0 ∷ public_key)
    else if length public_key == 33
    then ok (1 ∷ public_key)
    else if length public_key == 64
    then ok (1 ∷ 0 ∷ take public_key_length public_key)
    else err (crypto "invalid public key length")

unfoldable pub public_key_of : Address → Result Bytes
unfolding kind kind_eq
public_key_of address =
    if not (kind_eq (kind address) AddressKind.user)
    then err (crypto "only user addresses contain an Ed25519 public key")
    else ok (drop 2 address)

-- `&text[1..]` panics where the second byte goes on with a character of the first.
unfoldable pub from_second_byte : Bytes → Result Bytes
from_second_byte text =
    let second = get_or text 1 0 in
    if leb 0x80 second && ltb second 0xC0
    then err (panicked "byte index 1 is not a char boundary")
    else ok (drop 1 text)

-- The match on the first character.
unfoldable pub prefixed : ℕ → AddressKind → Address → Result Address
unfolding kind_eq
prefixed prefix found address =
    if (prefix == b'P') && not (kind_eq found AddressKind.user)
    then err (crypto "address has to be of type User")
    else if (prefix == b'S') && not (kind_eq found AddressKind.system)
    then err (crypto "address has to be of type System")
    else if (prefix == b'X') && not (kind_eq found AddressKind.interop)
    then err (crypto "address has to be of type Interop")
    else if (prefix == b'P') || ((prefix == b'S') || (prefix == b'X'))
    then ok address
    else err (crypto "unknown address prefix")

unfoldable pub prefix_of : AddressKind → ℕ
prefix_of AddressKind.system = b'S'
prefix_of AddressKind.interop = b'X'
prefix_of _ = b'P'

module _ ⦃library : CryptoLibrary⦄ where
  unfoldable pub encode_base58 : Bytes → Bytes
  encode_base58 data_bytes = library.bs58_encode data_bytes

  unfoldable pub decode_base58 : Bytes → Result Bytes
  unfolding all_base58
  decode_base58 text =
      if length text == 0
      then err (encoding "base58 text is empty")
      else if not (all_base58 text)
      then err (encoding "invalid base58 character")
      else library.bs58_decode text

  unfoldable pub from_text : Bytes → Result Address
  unfolding null from_second_byte decode_base58 address_try_from_slice prefixed
  from_text text =
      if (length text == 0) || eq_ignore_ascii_case text (ascii "NULL")
      then ok null
      else if ltb (length text) 2
      then err (crypto "address text is too short")
      else (from_second_byte text >>= decode_base58 >>= address_try_from_slice >>= λ address.
          prefixed (get_or text 0 0) (kind address) address)

  unfoldable pub to_text : Address → Bytes
  unfolding is_null kind prefix_of encode_base58
  to_text address =
      if is_null address then ascii "NULL" else prefix_of (kind address) ∷ encode_base58 address

  unfoldable pub from_hash : Bytes → Address
  from_hash value = 1 ∷ 0 ∷ library.sha256 value

  unfoldable pub double_sha256 : Bytes → Bytes
  double_sha256 data_bytes = library.sha256 (library.sha256 data_bytes)

  -- `Ed25519Signature::verify`; `any` over the addresses.
  unfoldable pub verify : Bytes → Bytes → List Address → Bool
  unfolding public_key_of
  verify signature message [] = false
  verify signature message (address ∷ addresses) =
      let rest = verify signature message addresses in
      (elim (public_key_of address) [
        | err e ↦ false
        | ok public_key ↦ library.verifies public_key message signature
      ])
      || rest

  unfoldable pub keys_try_from_slice : Bytes → Result Bytes
  unfolding sized
  keys_try_from_slice private_key =
      sized private_key_length
        (if length private_key == 64 then take private_key_length private_key else private_key)

  -- The checks of `from_wif` on the size of the data and its two parts.
  unfoldable pub checked_wif : ℕ → Bytes → Bytes → Result Bytes
  unfolding double_sha256 keys_try_from_slice
  checked_wif size payload checksum =
      if not (size == 38)
      then err (crypto "invalid WIF length")
      else if not (list_eq (take 4 (double_sha256 payload)) checksum)
      then err (crypto "invalid WIF checksum")
      else if not (length payload == 34)
          || (not (get_or payload 0 0 == 0x80) || not (get_or payload 33 0 == 0x01))
      then err (crypto "invalid compressed Ed25519 WIF payload")
      else keys_try_from_slice (take 32 (drop 1 payload))

  unfoldable pub from_wif : Bytes → Result Bytes
  unfolding decode_base58 checked_wif
  from_wif wif =
      if length wif == 0
      then err (crypto "WIF is required")
      else (decode_base58 wif >>= λ data_bytes.
          let place = length data_bytes - 4 in
          checked_wif (length data_bytes) (take place data_bytes) (drop place data_bytes))

  unfoldable pub to_wif : Bytes → Bytes
  unfolding double_sha256 encode_base58
  to_wif private_key =
      let payload = 0x80 ∷ private_key ++ 0x01 ∷ [] in
      encode_base58 (payload ++ take 4 (double_sha256 payload))

  -- `PhantasmaKeys::address`; the key has 32 bytes, so there is no error to expect.
  unfoldable pub address_of : Bytes → Result Address
  unfolding from_public_key
  address_of private_key = from_public_key (library.verifying_key private_key)

  unfoldable pub sign : Bytes → Bytes → Bytes
  sign private_key message = library.sign_message private_key message

-- `Hash::difficulty`: the bits of a byte, and the bytes, in order.
unfoldable pub last_bit : ℕ → ℕ → ℕ → ℕ → ℕ
last_bit byte_index byte zero found = found
last_bit byte_index byte (suc bits) found =
    let below = last_bit byte_index byte bits found in
    if not (bit_and byte (2 ^ bits) == 0) then 1 + 8 * byte_index + bits else below

unfoldable pub last_set_bit : ℕ → Bytes → ℕ → ℕ
unfolding last_bit
last_set_bit byte_index [] found = found
last_set_bit byte_index (byte ∷ bytes) found =
    last_set_bit (byte_index + 1) bytes (last_bit byte_index byte 8 found)

unfoldable pub difficulty : Bytes → ℕ
unfolding last_set_bit
difficulty hash = 256 - last_set_bit 0 hash 0
