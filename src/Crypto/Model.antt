-- ===== src/Crypto/Model.antt =====
-- A concrete instance of the crates that src/crypto.rs calls, which shows that what is asked of them
-- can hold: bytes are counted out in two letters, and the digests and signatures are constants.
use phantasma_sdk_rs.Prelude.{
  ℕ, zero, suc, ◌+◌, ◌%◌, ◌≤◌, ◌≡◌, refl, ap, ◌∙◌, arith, [], ◌∷◌, true, ◌&&◌, ◌==◌, if◌then◌else◌,
  length, replicate, list_eq,
}
use phantasma_sdk_rs.Error.{ok}
use phantasma_sdk_rs.Stream.{Bytes}
use phantasma_sdk_rs.Stream.Bytes.{All-replicate}
use phantasma_sdk_rs.Crypto.{CryptoLibrary, all_base58, in_alphabet}

abbrev pub counted : ℕ → Bytes → Bytes
counted zero rest = b'1' ∷ rest
counted (suc n) rest = b'2' ∷ counted n rest

abbrev pub letters : Bytes → Bytes
letters [] = []
letters (b ∷ bytes) = counted b (letters bytes)

abbrev pub count_back : ℕ → Bytes → Bytes
count_back n [] = []
count_back n (c ∷ text) =
    let next = count_back 0 text in
    let more = count_back (suc n) text in if c == b'1' then n ∷ next else more

count_back-counted :
    (n k : ℕ) (rest : Bytes) → count_back n (counted k rest) ≡ (n + k) ∷ count_back 0 rest
count_back-counted n zero rest = ap (λ t. t ∷ count_back 0 rest) (omega arith)
count_back-counted n (suc k) rest =
    count_back-counted (suc n) k rest ∙ ap (λ t. t ∷ count_back 0 rest) (omega arith)

pub count_back-letters : (bytes : Bytes) → count_back 0 (letters bytes) ≡ bytes
count_back-letters [] = refl
count_back-letters (b ∷ bytes) =
    count_back-counted 0 b (letters bytes)
    ∙ ap (λ t. t ∷ count_back 0 (letters bytes)) (omega arith)
    ∙ ap (λ t. b ∷ t) (count_back-letters bytes)

counted_base58 :
    (n : ℕ) (rest : Bytes) → all_base58 rest ≡ true → all_base58 (counted n rest) ≡ true
unfolding all_base58 in_alphabet
counted_base58 zero rest h = h
counted_base58 (suc n) rest h = counted_base58 n rest h

pub letters_base58 : (bytes : Bytes) → all_base58 (letters bytes) ≡ true
letters_base58 [] = unfold all_base58 in refl
letters_base58 (b ∷ bytes) = counted_base58 b (letters bytes) (letters_base58 bytes)

counted_long : (n : ℕ) (rest : Bytes) → suc (length rest) ≤ length (counted n rest)
counted_long zero rest = omega arith
counted_long (suc n) rest = omega (arith, counted_long n rest)

pub letters_long : (bytes : Bytes) → length bytes ≤ length (letters bytes)
letters_long [] = omega arith
letters_long (b ∷ bytes) = omega (arith, counted_long b (letters bytes), letters_long bytes)

pub constants_verify :
    (list_eq (replicate 32 1) (replicate 32 1) && list_eq (replicate 64 2) (replicate 64 2)) ≡ true
unfolding list_eq
constants_verify = refl

instance abbrev pub model : CryptoLibrary
model = record {
  bs58_encode = letters;
  bs58_decode = λ text. ok (count_back 0 text);
  sha256 = λ data_bytes. replicate 32 (length data_bytes % 256);
  verifying_key = λ private_key. replicate 32 1;
  sign_message = λ private_key message. replicate 64 2;
  verifies =
      λ key message signature. list_eq key (replicate 32 1) && list_eq signature (replicate 64 2);
  bs58_decode-bs58_encode = λ data_bytes real. ap ok (count_back-letters data_bytes);
  bs58_encode_alphabet = λ data_bytes real. letters_base58 data_bytes;
  bs58_encode_long = λ data_bytes real. letters_long data_bytes;
  sha256-IsByte = λ data_bytes. All-replicate 32 _ (omega arith);
  length-sha256 = λ data_bytes. refl;
  length-verifying_key = λ private_key. refl;
  length-sign_message = λ private_key message. refl;
  verifies-sign_message = λ private_key message. constants_verify;
}
