-- ===== src/Crypto/Wif.antt =====
-- The WIF text of a private key, src/crypto.rs, is read back.
use phantasma_sdk_rs.Prelude.{
  ℕ, zero, suc, ◌-◌, ◌≡◌, refl, ap, sym, ◌∙◌, arith, [], ◌∷◌, ◌++◌, false, if◌then◌else◌, ◌==◌,
  length, length-append, take, drop, take-append, drop-append, get_or, list_eq_refl, All,
}
use phantasma_sdk_rs.Error.{Result, ok, err, crypto, ◌>>=◌}
use phantasma_sdk_rs.Stream.{Bytes}
use phantasma_sdk_rs.Stream.Bytes.{IsByte, length-take, All-append, All-take}
use phantasma_sdk_rs.Crypto.{
  CryptoLibrary, encode_base58, double_sha256, keys_try_from_slice, checked_wif, from_wif, to_wif,
  decode_base58,
}
use phantasma_sdk_rs.Crypto.Laws.{sized_ok, decode_base58-encode_base58}

-- The cut four bytes before the end.
cut_front :
    (payload checksum : Bytes)
    → length checksum ≡ 4
    → take (length (payload ++ checksum) - 4) (payload ++ checksum) ≡ payload
cut_front payload checksum h =
    let place : length (payload ++ checksum) - 4 ≡ length payload =
      omega (arith, length-append payload checksum) in
    rw place (take-append payload checksum)

cut_back :
    (payload checksum : Bytes)
    → length checksum ≡ 4
    → drop (length (payload ++ checksum) - 4) (payload ++ checksum) ≡ checksum
cut_back payload checksum h =
    let place : length (payload ++ checksum) - 4 ≡ length payload =
      omega (arith, length-append payload checksum) in
    rw place (drop-append payload checksum)

last_byte : (n : ℕ) (bytes : Bytes) (b : ℕ) → length bytes ≡ n → get_or (bytes ++ b ∷ []) n 0 ≡ b
last_byte zero [] b h = refl
last_byte (suc n) [] b h = absurd (omega arith)
last_byte zero (x ∷ bytes) b h = absurd (omega arith)
last_byte (suc n) (x ∷ bytes) b h = last_byte n bytes b (omega arith)

take_front : (n : ℕ) (bytes more : Bytes) → length bytes ≡ n → take n (bytes ++ more) ≡ bytes
take_front n bytes more h = rw (sym h) (take-append bytes more)

module _ ⦃library : CryptoLibrary⦄ where
  abbrev pub wif_payload : Bytes → Bytes
  wif_payload private_key = 0x80 ∷ private_key ++ 0x01 ∷ []

  abbrev pub wif_checksum : Bytes → Bytes
  wif_checksum private_key = take 4 (double_sha256 (wif_payload private_key))

  length-wif_payload :
      (private_key : Bytes) → length private_key ≡ 32 → length (wif_payload private_key) ≡ 34
  length-wif_payload private_key size = omega (arith, length-append private_key (0x01 ∷ []))

  length-wif_checksum : (private_key : Bytes) → length (wif_checksum private_key) ≡ 4
  length-wif_checksum private_key =
      let whole = library.length-sha256 (library.sha256 (wif_payload private_key)) in
      unfold double_sha256 in length-take 4 _ (omega (arith, whole))

  checked_wif_ok :
      (private_key : Bytes)
      → length private_key ≡ 32
      → checked_wif 38 (wif_payload private_key) (wif_checksum private_key) ≡ ok private_key
  unfolding checked_wif keys_try_from_slice
  checked_wif_ok private_key size =
      rw
        (
          list_eq_refl,
          length-wif_payload private_key size,
          last_byte 32 private_key 0x01 size,
          take_front 32 private_key (0x01 ∷ []) size,
          size,
        )
        (sized_ok 32 private_key size)

  from_wif_decoded :
      (wif data_bytes : Bytes)
      → (length wif == 0) ≡ false
      → decode_base58 wif ≡ ok data_bytes
      → from_wif wif
        ≡ checked_wif
            (length data_bytes)
            (take (length data_bytes - 4) data_bytes)
            (drop (length data_bytes - 4) data_bytes)
  unfolding from_wif
  from_wif_decoded wif data_bytes some_text decoded =
      ap (λ t. if t then err (crypto "WIF is required") else (decode_base58 wif >>= split))
        some_text
      ∙ ap (λ t. t >>= split) decoded
    where
      split : Bytes → Result Bytes
      split whole =
          checked_wif (length whole) (take (length whole - 4) whole) (drop (length whole - 4) whole)

  -- A private key of 32 bytes is read from its WIF text.
  pub from_wif-to_wif :
      (private_key : Bytes)
      → All IsByte private_key
      → length private_key ≡ 32
      → from_wif (to_wif private_key) ≡ ok private_key
  unfolding to_wif encode_base58
  from_wif-to_wif private_key real size =
      let payload = wif_payload private_key in
      let checksum = wif_checksum private_key in
      let front = length-wif_payload private_key size in
      let back = length-wif_checksum private_key in
      let sum = library.sha256-IsByte (library.sha256 payload) in
      let bytes =
        All-append payload checksum (omega arith, All-append private_key _ real (omega arith, tt))
          (unfold double_sha256 in All-take 4 _ sum) in
      let whole : length (payload ++ checksum) ≡ 38 =
        omega (arith, length-append payload checksum, front, back) in
      let long = library.bs58_encode_long (payload ++ checksum) bytes in
      from_wif_decoded _ (payload ++ checksum) (ground (arith, long, whole))
        (decode_base58-encode_base58 (payload ++ checksum) bytes (omega (arith, whole)))
      ∙ rw (cut_front payload checksum back, cut_back payload checksum back, whole)
          (checked_wif_ok private_key size)
