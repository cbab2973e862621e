-- ===== src/Carbon/IntX/Word.antt =====
-- The 256-bit words of integers: their bytes, their trimmed form and its header.
use phantasma_sdk_rs.Prelude.{
  ℕ, zero, suc, ◌-◌, ◌^◌, ◌≤◌, ◌<◌, ◌≡◌, refl, ◌∙◌, arith, pos, negsuc, to_unsigned,
  to_signed-to_unsigned, InRange, ◌++◌, Bool, true, false, ◌==◌, length, take, replicate, get_or,
  All, bit_and, length-append, length-replicate, le→ltb, not, inl, inr, ◌⊎◌,
}
use phantasma_sdk_rs.Prelude.Bits.{passes_below, passes_below_at}
use phantasma_sdk_rs.Error.{ok}
use phantasma_sdk_rs.Stream.{Bytes, from_le}
use phantasma_sdk_rs.Stream.Bytes.{
  from_le-append, from_le-zeros, take_all, All-append, All-replicate, refill,
}
use phantasma_sdk_rs.BigInt.{
  BigInt, BigIntBytes, IsByte, resize, signed_word_256, signed_word_to_big_int,
}
use phantasma_sdk_rs.Carbon.IntX.{trim, fill_of, has_bits, compact_header}

-- A word of 32 bytes with the value of `z` in two's complement.
pub record WordOf ⦃big : BigIntBytes⦄ (z : BigInt) (word : Bytes) : Type 0 where
  pub size : length word ≡ 32
  pub all_bytes : All IsByte word
  pub pattern_value : from_le word ≡ to_unsigned (2 ^ 255) z
  pub value : signed_word_to_big_int word ≡ z

resize_lem :
    (bytes : Bytes)
    → length bytes ≤ 32
    → resize bytes 32 0 ≡ bytes ++ replicate (32 - length bytes) 0
resize_lem bytes h = take_all 32 _ (
    omega (
      arith,
      length-append bytes (replicate (32 - length bytes) 0),
      length-replicate {A = ℕ} (32 - length bytes) 0,
    ))

module _ ⦃big : BigIntBytes⦄ where
  -- The word of a bit pattern, whichever integer the pattern stands for.
  pattern_word :
      (z : BigInt) (n : ℕ)
      → n < 2 ^ 256
      → n ≡ to_unsigned (2 ^ 255) z
      → InRange (2 ^ 255) z
      → WordOf z (resize (big.to_bytes_le (pos n)) 32 0)
  unfolding signed_word_to_big_int
  pattern_word z n h e range =
      let bytes : Bytes = big.to_bytes_le (pos n) in
      let short : length bytes ≤ 32 = big.to_bytes_le-short (pos n) 31 (omega arith) in
      let zeros : Bytes = replicate (32 - length bytes) 0 in
      let word : Bytes = bytes ++ zeros in
      let size : length word ≡ 32 =
        omega (arith, length-append bytes zeros, length-replicate {A = ℕ} (32 - length bytes) 0) in
      let all_bytes : All IsByte word =
        All-append bytes zeros (big.to_bytes_le-IsByte (pos n))
          (All-replicate (32 - length bytes) 0 (omega arith)) in
      let pattern_value : from_le word ≡ to_unsigned (2 ^ 255) z =
        from_le-append bytes zeros
        ∙ rw (from_le-zeros (32 - length bytes), big.to_bytes_le-value (pos n))
            (omega (arith, e)) in
      let value : signed_word_to_big_int word ≡ z =
        big.from_signed_bytes_le-value word all_bytes (omega arith)
        ∙ rw (size, pattern_value) (to_signed-to_unsigned (2 ^ 255) z range) in
      rw (resize_lem bytes short) (record {
        size = size;
        all_bytes = all_bytes;
        pattern_value = pattern_value;
        value = value;
      })

  pub signed_word_256_ok :
      (z : BigInt)
      → InRange (2 ^ 255) z
      → (word : Bytes) × (signed_word_256 z ≡ ok word) × WordOf z word
  unfolding signed_word_256
  signed_word_256_ok (pos n) h = (
    _,
    rw (le→ltb (2 ^ 256 - 1) n (omega arith)),
    pattern_word (pos n) n (omega arith) (omega arith) h,
  )
  signed_word_256_ok (negsuc n) h = (
    _,
    rw (le→ltb (2 ^ 255) (suc n) (omega arith)),
    pattern_word (negsuc n) (2 ^ 256 - suc n) (omega arith) (omega arith) h,
  )

pub trim-le : (word : Bytes) (fill n : ℕ) → trim word fill n ≤ n
unfolding trim
trim-le word fill zero = omega arith
trim-le word fill (suc n) = ground (arith, trim-le word fill n)

pub trim_fill :
    (word : Bytes) (fill n i : ℕ) → trim word fill n ≤ i → i < n → get_or word i 0 ≡ fill
unfolding trim
trim_fill word fill zero i h lt = absurd (omega arith)
trim_fill word fill (suc n) i h lt = ground (arith, trim_fill word fill n i)

-- The trimmed word with its fill is the word.
pub trim_refill :
    (word : Bytes) (fill k : ℕ)
    → length word ≡ 32
    → trim word fill 32 ≤ k
    → k ≤ 32
    → take k word ++ replicate (32 - k) fill ≡ word
trim_refill word fill k size h h' = rw (← size) (
    refill k word fill (omega arith)
      (λ i p q. trim_fill word fill 32 i (omega arith) (omega arith)))

==→eq : (a b : ℕ) → (a == b) ≡ true → a ≡ b
==→eq a b h = ground arith

not→false : (b : Bool) → not b ≡ true → b ≡ false
not→false true h = cc
not→false false h = refl

-- What the header says, at each length and sign.
pub header_length :
    (top : Bool) (len : ℕ) → len ≤ 32 → bit_and (compact_header len (fill_of top)) 0x3F ≡ len
unfolding compact_header passes_below
header_length true len h =
    ==→eq _ _
      (passes_below_at (λ k. bit_and (compact_header k 0xFF) 0x3F == k) 33 refl len (omega arith))
header_length false len h =
    ==→eq _ _
      (passes_below_at (λ k. bit_and (compact_header k 0) 0x3F == k) 33 refl len (omega arith))

pub header_sign :
    (top : Bool) (len : ℕ) → len ≤ 32 → has_bits (compact_header len (fill_of top)) 0x80 ≡ top
unfolding compact_header passes_below
header_sign true len h =
    passes_below_at (λ k. has_bits (compact_header k 0xFF) 0x80) 33 refl len (omega arith)
header_sign false len h =
    not→false _
      (passes_below_at (λ k. not (has_bits (compact_header k 0) 0x80)) 33 refl len (omega arith))

pub header_reserved :
    (top : Bool) (len : ℕ) → len ≤ 32 → has_bits (compact_header len (fill_of top)) 0x40 ≡ false
unfolding compact_header passes_below
header_reserved true len h =
    not→false _
      (passes_below_at (λ k. not (has_bits (compact_header k 0xFF) 0x40)) 33 refl len (omega arith))
header_reserved false len h =
    not→false _
      (passes_below_at (λ k. not (has_bits (compact_header k 0) 0x40)) 33 refl len (omega arith))

-- The header is zero for the word of zero alone.
pub header_zero :
    (top : Bool) (len : ℕ)
    → len ≤ 32
    → (top ≡ true) ⊎ (0 < len)
    → (compact_header len (fill_of top) == 0) ≡ false
unfolding compact_header passes_below
header_zero true len h p =
    not→false _ (passes_below_at (λ k. not (compact_header k 0xFF == 0)) 33 refl len (omega arith))
header_zero false len h (inl p) = absurd cc
header_zero false zero h (inr p) = absurd (omega arith)
header_zero false (suc len) h (inr p) =
    not→false _
      (passes_below_at (λ k. not (compact_header (suc k) 0 == 0)) 32 refl len (omega arith))
