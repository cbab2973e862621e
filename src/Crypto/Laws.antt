-- ===== src/Crypto/Laws.antt =====
-- The texts of addresses and keys of src/crypto.rs are read back, and what a key has signed verifies.
use phantasma_sdk_rs.Prelude.{
  ℕ, ◌<◌, ◌≡◌, ◌≢◌, refl, ap, sym, ◌∙◌, arith, List, [], ◌∷◌, Bool, true, false, ◌||◌, ◌&&◌, ltb,
  leb, ◌==◌, ==_refl, if◌then◌else◌, length, get_or, list_eq, list_eq→eq, Bool-cases, inl, inr, map,
  length-map, subst, All,
}
use phantasma_sdk_rs.Error.{Result, ok, ok-injective, err, ◌>>=◌}
use phantasma_sdk_rs.Stream.{Bytes}
use phantasma_sdk_rs.Stream.Bytes.{IsByte}
use phantasma_sdk_rs.Text.Ascii.{ascii, eq_ignore_ascii_case, to_ascii_lowercase, to_lower}
use phantasma_sdk_rs.Crypto.{
  CryptoLibrary, AddressKind, Address, address_length, base58_alphabet, in_alphabet, all_base58,
  kind_eq, sized, address_try_from_slice, null, is_null, kind, from_public_key, public_key_of,
  from_second_byte, prefixed, prefix_of, encode_base58, decode_base58, from_text, to_text, verify,
  address_of, sign,
}

pub sized_ok :
    (n : ℕ) (data_bytes : Bytes) → length data_bytes ≡ n → sized n data_bytes ≡ ok data_bytes
unfolding sized
sized_ok n data_bytes h = rw (h, ==_refl n)

and_both : (a b : Bool) → (a && b) ≡ true → (a ≡ true) × (b ≡ true)
and_both true b h = (refl, h)
and_both false b h = absurd cc

-- The letters of Base58 are ASCII.
abbrev pub all_ascii : Bytes → Bool
all_ascii [] = true
all_ascii (b ∷ bytes) = ltb b 0x80 && all_ascii bytes

letter_of :
    (letters : Bytes) (c : ℕ) → all_ascii letters ≡ true → in_alphabet c letters ≡ true → c < 0x80
unfolding in_alphabet
letter_of [] c small h = absurd cc
letter_of (b ∷ letters) c small h =
    let (first, rest) = and_both (ltb b 0x80) (all_ascii letters) small in
    elim (Bool-cases (c == b)) [
      | inl e ↦ ground arith
      | inr e ↦ letter_of letters c rest (sym (ap (λ t. t || in_alphabet c letters) e) ∙ h)
    ]

letter_small : (c : ℕ) → in_alphabet c base58_alphabet ≡ true → c < 0x80
letter_small c h = letter_of base58_alphabet c refl h

prefixed_ok :
    (found : AddressKind) (address : Address)
    → found ≢ AddressKind.invalid
    → prefixed (prefix_of found) found address ≡ ok address
unfolding prefixed prefix_of
prefixed_ok AddressKind.invalid address valid = absurd (valid refl)
prefixed_ok AddressKind.user address valid = refl
prefixed_ok AddressKind.system address valid = refl
prefixed_ok AddressKind.interop address valid = refl

-- `&text[1..]` where the second byte is a letter of Base58.
from_second_byte_ok :
    (prefix : ℕ) (letters : Bytes)
    → all_base58 letters ≡ true
    → 0 < length letters
    → from_second_byte (prefix ∷ letters) ≡ ok letters
unfolding from_second_byte all_base58
from_second_byte_ok prefix [] h some_text = absurd (omega arith)
from_second_byte_ok prefix (c ∷ letters) h some_text =
    let (first, rest) = and_both (in_alphabet c base58_alphabet) (all_base58 letters) h in
    let low : leb 0x80 c ≡ false = ground (arith, letter_small c first) in rw low

-- A longer text is not "NULL".
null_text : (text : Bytes) → 4 < length text → eq_ignore_ascii_case text (ascii "NULL") ≡ false
unfolding eq_ignore_ascii_case to_ascii_lowercase
null_text text h = elim (Bool-cases (list_eq (map to_lower text) (map to_lower (ascii "NULL")))) [
  | inl e ↦
      let same = list_eq→eq (map to_lower text) (map to_lower (ascii "NULL")) e in
      absurd (omega (arith, ap length same, length-map to_lower text))
  | inr e ↦ e
]

-- The key of 32 bytes that an address was made of.
public_key_of-from_public_key :
    (public_key : Bytes) (address : Address)
    → length public_key ≡ 32
    → from_public_key public_key ≡ ok address
    → public_key_of address ≡ ok public_key
unfolding from_public_key
public_key_of-from_public_key public_key address size h =
    let made : from_public_key public_key ≡ ok (1 ∷ 0 ∷ public_key) = rw size in
    subst (λ t. public_key_of t ≡ ok public_key) (ok-injective (sym made ∙ h)) (own public_key)
  where
    own : (key : Bytes) → public_key_of (1 ∷ 0 ∷ key) ≡ ok key
    own key = unfold public_key_of kind is_null list_eq null kind_eq in refl

module _ ⦃library : CryptoLibrary⦄ where
  pub decode_base58-encode_base58 :
      (data_bytes : Bytes)
      → All IsByte data_bytes
      → 0 < length data_bytes
      → decode_base58 (encode_base58 data_bytes) ≡ ok data_bytes
  unfolding decode_base58 encode_base58
  decode_base58-encode_base58 data_bytes real h =
      let some_text : (length (library.bs58_encode data_bytes) == 0) ≡ false =
        ground (arith, library.bs58_encode_long data_bytes real) in
      rw (some_text, library.bs58_encode_alphabet data_bytes real)
        (library.bs58_decode-bs58_encode data_bytes real)

  abbrev pub read_text : Bytes → Result Address
  read_text text = from_second_byte text >>= decode_base58 >>= address_try_from_slice >>= λ address.
      prefixed (get_or text 0 0) (kind address) address

  from_text_long : (text : Bytes) → 4 < length text → from_text text ≡ read_text text
  unfolding from_text
  from_text_long text h =
      let some_text : (length text == 0) ≡ false = ground arith in
      let long : ltb (length text) 2 ≡ false = ground arith in
      rw (some_text, null_text text h, long)

  from_text-null : from_text (ascii "NULL") ≡ ok null
  unfolding from_text eq_ignore_ascii_case to_ascii_lowercase to_lower list_eq
  from_text-null = refl

  read_text_ok :
      (prefix : ℕ) (address : Address)
      → All IsByte address
      → length address ≡ address_length
      → read_text (prefix ∷ encode_base58 address) ≡ prefixed prefix (kind address) address
  unfolding address_try_from_slice encode_base58
  read_text_ok prefix address real size =
      let letters = library.bs58_encode address in
      let second =
        from_second_byte_ok prefix letters (library.bs58_encode_alphabet address real)
          (omega (arith, size, library.bs58_encode_long address real)) in
      let back = decode_base58-encode_base58 address real (omega (arith, size)) in
      rw (second, back, sized_ok address_length address size)

  to_text_if :
      (address : Address) (b : Bool)
      → is_null address ≡ b
      → to_text address
        ≡ (if b then ascii "NULL" else prefix_of (kind address) ∷ encode_base58 address)
  unfolding to_text
  to_text_if address b e =
      ap (λ t. if t then ascii "NULL" else prefix_of (kind address) ∷ encode_base58 address) e

  -- An address of 34 bytes whose kind is not `Invalid` is read from its text, the null address too.
  pub from_text-to_text :
      (address : Address)
      → All IsByte address
      → length address ≡ address_length
      → kind address ≢ AddressKind.invalid
      → from_text (to_text address) ≡ ok address
  from_text-to_text address real size valid = elim (Bool-cases (is_null address)) [
    | inl e ↦
        let same : address ≡ null = unfold is_null in list_eq→eq address null e in
        rw (to_text_if address true e) (from_text-null ∙ ap ok (sym same))
    | inr e ↦
        let long = library.bs58_encode_long address real in
        rw (to_text_if address false e) (
          from_text_long (prefix_of (kind address) ∷ encode_base58 address)
            (unfold encode_base58 in omega (arith, size, long))
          ∙ read_text_ok (prefix_of (kind address)) address real size
          ∙ prefixed_ok (kind address) address valid)
  ]

  verify_known :
      (signature message : Bytes) (address : Address) (key : Bytes) (addresses : List Address)
      → public_key_of address ≡ ok key
      → library.verifies key message signature ≡ true
      → verify signature message (address ∷ addresses) ≡ true
  unfolding verify
  verify_known signature message address key addresses known h =
      ap
        (λ t.
          (elim t [ err e ↦ false | ok k ↦ library.verifies k message signature ])
          || verify signature message addresses)
        known
      ∙ ap (λ t. t || verify signature message addresses) h

  -- What a key of 32 bytes signs verifies for its own address, among any others.
  pub verify-sign :
      (private_key message : Bytes) (address : Address) (addresses : List Address)
      → address_of private_key ≡ ok address
      → verify (sign private_key message) message (address ∷ addresses) ≡ true
  unfolding sign address_of
  verify-sign private_key message address addresses h =
      let key = library.verifying_key private_key in
      let known =
        public_key_of-from_public_key key address (library.length-verifying_key private_key) h in
      verify_known (sign private_key message) message address key addresses known
        (library.verifies-sign_message private_key message)
