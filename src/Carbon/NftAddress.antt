-- ===== src/Carbon/NftAddress.antt =====
-- The addresses of NFT instances in src/carbon.rs: fifteen zero bytes, a marker, and the ids of the
-- token and of the instance.
mod Tests
use phantasma_sdk_rs.Prelude.{
  ℕ, zero, suc, ◌+◌, ◌-◌, ◌*◌, ◌/◌, ◌%◌, ◌^◌, ◌≤◌, ◌<◌, ◌≡◌, refl, sym, ◌∙◌, ap, subst, arith, List,
  [], ◌∷◌, ◌++◌, Bool, true, false, not, ◌&&◌, ◌||◌, ◌==◌, ==_refl, if◌then◌else◌, length, take,
  drop, replicate, get_or, All, Bool-cases, inl, inr, append-nil, length-replicate,
}
use phantasma_sdk_rs.Stream.{Bytes, le_bytes, from_le}
use phantasma_sdk_rs.Stream.Bytes.{IsByte, take_all, length-take, All-take, length-drop, All-drop}
use phantasma_sdk_rs.Stream.Codes.{from_le-le_bytes, length-le_bytes}

unfoldable pub get_nft_address : ℕ → ℕ → Bytes
get_nft_address carbon_token_id instance_id =
    replicate 15 0 ++ (1 ∷ le_bytes 8 carbon_token_id ++ le_bytes 8 instance_id)

-- The slices `[16..24]` and `[24..32]`.
unfoldable pub unpack_nft_address : Bytes → ℕ × ℕ
unpack_nft_address address =
    (from_le (take 8 (drop 16 address)), from_le (take 8 (drop 24 address)))

-- `bytes.iter().any(|byte| *byte != 0)`
unfoldable pub any_nonzero : Bytes → Bool
any_nonzero [] = false
any_nonzero (b ∷ bytes) = not (b == 0) || any_nonzero bytes

unfoldable pub is_nft_address : Bytes → Bool
unfolding unpack_nft_address any_nonzero
is_nft_address address =
    if not (get_or address 15 0 == 1) || any_nonzero (take 15 address)
    then false
    else (let (token_id, instance_id) = unpack_nft_address address in
        not (token_id == 0) && not (instance_id == 0))

-- The low and the high half of an instance id.
unfoldable pub unpack_nft_instance_id : ℕ → ℕ × ℕ
unpack_nft_instance_id instance_id = (instance_id % 2 ^ 32, instance_id / 2 ^ 32 % 2 ^ 32)

-- The two words of an address, and what `from_le` makes of them.
token_word : (t i : ℕ) → take 8 (drop 16 (get_nft_address t i)) ≡ le_bytes 8 t
unfolding get_nft_address le_bytes
token_word t i = refl

instance_word : (t i : ℕ) → take 8 (drop 24 (get_nft_address t i)) ≡ le_bytes 8 i
unfolding get_nft_address le_bytes
instance_word t i = refl

-- The ids of an address made of two u64 ids are these ids.
pub unpack_nft_address-get_nft_address :
    (token_id instance_id : ℕ)
    → token_id < 2 ^ 64
    → instance_id < 2 ^ 64
    → unpack_nft_address (get_nft_address token_id instance_id) ≡ (token_id, instance_id)
unfolding unpack_nft_address
unpack_nft_address-get_nft_address t i p q =
    rw (token_word t i, instance_word t i, from_le-le_bytes 8 t p, from_le-le_bytes 8 i q)

recognised :
    (a : Bytes)
    → (get_or a 15 0 == 1) ≡ true
    → any_nonzero (take 15 a) ≡ false
    → is_nft_address a
      ≡ (not ((unpack_nft_address a).0 == 0) && not ((unpack_nft_address a).1 == 0))
unfolding is_nft_address
recognised a e d = rw (e, d)

-- An address made of two u64 ids is recognised exactly if neither id is zero.
pub is_nft_address-get_nft_address :
    (token_id instance_id : ℕ)
    → token_id < 2 ^ 64
    → instance_id < 2 ^ 64
    → is_nft_address (get_nft_address token_id instance_id)
      ≡ (not (token_id == 0) && not (instance_id == 0))
is_nft_address-get_nft_address t i p q =
    recognised (get_nft_address t i) (unfold get_nft_address in refl)
      (unfold get_nft_address any_nonzero in refl)
    ∙ ap (λ ids. not (ids.0 == 0) && not (ids.1 == 0)) (unpack_nft_address-get_nft_address t i p q)

le_bytes-from_le : (xs : Bytes) → All IsByte xs → le_bytes (length xs) (from_le xs) ≡ xs
unfolding le_bytes from_le
le_bytes-from_le [] h = refl
le_bytes-from_le (x ∷ xs) (h, hs) =
    let low : (x + 256 * from_le xs) % 256 ≡ x = omega arith in
    let high : (x + 256 * from_le xs) / 256 ≡ from_le xs = omega arith in
    rw (low, high) (ap (λ t. x ∷ t) (le_bytes-from_le xs hs))

any_nonzero-zeros : (xs : Bytes) → any_nonzero xs ≡ false → replicate (length xs) 0 ≡ xs
unfolding any_nonzero
any_nonzero-zeros [] h = refl
any_nonzero-zeros (zero ∷ xs) h = ap (λ t. 0 ∷ t) (any_nonzero-zeros xs h)
any_nonzero-zeros (suc x ∷ xs) h = absurd (ground arith)

take-drop : (n : ℕ) (xs : Bytes) → take n xs ++ drop n xs ≡ xs
take-drop zero xs = refl
take-drop (suc n) [] = refl
take-drop (suc n) (x ∷ xs) = ap (λ t. x ∷ t) (take-drop n xs)

drop_step : (n : ℕ) (xs : Bytes) → n < length xs → drop n xs ≡ get_or xs n 0 ∷ drop (suc n) xs
drop_step n [] h = absurd (omega arith)
drop_step zero (x ∷ xs) h = refl
drop_step (suc n) (x ∷ xs) h = drop_step n xs (omega arith)

drop_nil : (n : ℕ) → drop {A = ℕ} n [] ≡ []
drop_nil zero = refl
drop_nil (suc n) = refl

drop-drop : (n k : ℕ) (xs : Bytes) → drop k (drop n xs) ≡ drop (n + k) xs
drop-drop zero k xs = ap (λ t. drop t xs) (let e : k ≡ 0 + k = omega arith in e)
drop-drop (suc n) k [] = drop_nil k ∙ sym (drop_nil (suc n + k))
drop-drop (suc n) k (x ∷ xs) =
    drop-drop n k xs
    ∙ ap (λ t. drop t (x ∷ xs)) (let e : suc (n + k) ≡ suc n + k = omega arith in e)

-- Eight bytes of an address are the word that they are read as.
word_lem :
    (n : ℕ) (a : Bytes)
    → n + 8 ≤ length a
    → All IsByte a
    → le_bytes 8 (from_le (take 8 (drop n a))) ≡ take 8 (drop n a)
word_lem n a h bytes =
    let size : length (take 8 (drop n a)) ≡ 8 =
      length-take 8 (drop n a) (omega (arith, length-drop n a)) in
    subst (λ k. le_bytes k (from_le (take 8 (drop n a))) ≡ take 8 (drop n a)) size
      (le_bytes-from_le _ (All-take 8 (drop n a) (All-drop n a bytes)))

nft_parts :
    (a : Bytes) → is_nft_address a ≡ true → (get_or a 15 0 ≡ 1) × (any_nonzero (take 15 a) ≡ false)
unfolding is_nft_address
nft_parts a h = ground arith

-- An address of 32 bytes that is recognised is made of the ids that are unpacked from it.
pub get_nft_address-unpack_nft_address :
    (address : Bytes)
    → length address ≡ 32
    → All IsByte address
    → is_nft_address address ≡ true
    → get_nft_address (unpack_nft_address address).0 (unpack_nft_address address).1 ≡ address
unfolding get_nft_address unpack_nft_address
get_nft_address-unpack_nft_address a size bytes h =
    let (marker, zeros) = nft_parts a h in
    let front : replicate 15 0 ≡ take 15 a =
      subst (λ k. replicate k 0 ≡ take 15 a) (length-take 15 a (omega (arith, size)))
        (any_nonzero-zeros (take 15 a) zeros) in
    let tail : take 8 (drop 24 a) ≡ drop 24 a =
      take_all 8 (drop 24 a) (omega (arith, size, length-drop 24 a)) in
    let words : take 8 (drop 16 a) ++ take 8 (drop 24 a) ≡ drop 16 a =
      ap (λ t. take 8 (drop 16 a) ++ t) (tail ∙ sym (drop-drop 16 8 a)) ∙ take-drop 8 (drop 16 a) in
    let back : (1 ∷ take 8 (drop 16 a) ++ take 8 (drop 24 a)) ≡ drop 15 a =
      ap (λ t. t ∷ take 8 (drop 16 a) ++ take 8 (drop 24 a)) (sym marker)
      ∙ ap (λ t. get_or a 15 0 ∷ t) words
      ∙ sym (drop_step 15 a (omega (arith, size))) in
    rw (word_lem 16 a (omega (arith, size)) bytes, word_lem 24 a (omega (arith, size)) bytes)
      (ap (λ t. t ++ (1 ∷ take 8 (drop 16 a) ++ take 8 (drop 24 a))) front
        ∙ ap (λ t. take 15 a ++ t) back
        ∙ take-drop 15 a)
