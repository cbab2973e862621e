-- ===== src/Carbon/IntX/Laws.antt =====
-- The integers of the Carbon format are read as they were written.
use phantasma_sdk_rs.Prelude.{
  ℕ, zero, suc, ◌-◌, ◌^◌, ◌≤◌, ◌<◌, ◌≡◌, ◌≢◌, ◌⊎◌, inl, refl, ap, ◌∙◌, arith, ℤ, pos, negsuc,
  to_unsigned, InRange, ◌++◌, Bool, true, false, ◌==◌, take, replicate, get_or, bit_and, le→ltb,
}
use phantasma_sdk_rs.Error.{ok}
use phantasma_sdk_rs.Stream.{Bytes, pure, ◌>>=◌, write, read, from_le}
use phantasma_sdk_rs.Stream.Codes.{Codes, Codes-bind, Codes-end, Codes-exact, Codes-weaken}
use phantasma_sdk_rs.Stream.Bytes.{from_le-zeros, length-take}
use phantasma_sdk_rs.BigInt.{BigInt, BigIntBytes, signed_word_256, signed_word_to_big_int}
use phantasma_sdk_rs.Carbon.Wire.{write1}
use phantasma_sdk_rs.Carbon.Wire.Laws.{Codes-1}
use phantasma_sdk_rs.Carbon.IntX.{
  trim, fill_of, has_bits, compact_header, write_word, is_zero, same, write_big_int, check_word,
  read_big_int_with_header, read_big_int,
}
use phantasma_sdk_rs.Carbon.IntX.Word.{
  WordOf, signed_word_256_ok, trim-le, trim_refill, header_length, header_sign, header_reserved,
  header_zero,
}

-- The sign bit of a word, the length of its trimmed form, and the header of that form.
abbrev pub top_of : Bytes → Bool
top_of word = has_bits (get_or word 31 0) 0x80

abbrev pub len_of : Bytes → ℕ
len_of word = trim word (fill_of (top_of word)) 32

abbrev pub header_of : Bytes → ℕ
header_of word = compact_header (len_of word) (fill_of (top_of word))

unsigned_nonzero : (z : ℤ) → InRange (2 ^ 255) z → is_zero z ≡ false → to_unsigned (2 ^ 255) z ≢ 0
unsigned_nonzero (pos n) h e = ground arith
unsigned_nonzero (negsuc n) h e = omega arith

pub same_refl : (b : Bool) → same b b ≡ true
same_refl true = refl
same_refl false = refl

module _ ⦃big : BigIntBytes⦄ where
  read_header_lem :
      (header len : ℕ) (t : Bool)
      → (header == 0) ≡ false
      → has_bits header 0x40 ≡ false
      → bit_and header 0x3F ≡ len
      → len ≤ 32
      → has_bits header 0x80 ≡ t
      → read_big_int_with_header header
        ≡ (read len >>= λ raw. check_word header (raw ++ replicate (32 - len) (fill_of t)))
  unfolding read_big_int_with_header
  read_header_lem header len t nonzero reserved size small sign =
      rw (nonzero, reserved, size, le→ltb 32 len small, sign)

  check_word_lem :
      (header : ℕ) (word : Bytes)
      → has_bits header 0x80 ≡ top_of word
      → check_word header word ≡ pure (signed_word_to_big_int word)
  unfolding check_word
  check_word_lem header word sign = rw (sign, same_refl (top_of word))

module _ ⦃big : BigIntBytes⦄ (z : BigInt) (word : Bytes) (w : WordOf z word) where
  pub len-le : len_of word ≤ 32
  len-le = trim-le word _ 32

  header_nonzero : from_le word ≢ 0 → (header_of word == 0) ≡ false
  header_nonzero nonzero = header_zero (top_of word) (len_of word) len-le (go (top_of word) refl)
    where
      zeros : (top_of word ≡ false) → len_of word ≡ 0 → from_le word ≡ 0
      zeros t h =
          let all_fill : replicate 32 (fill_of (top_of word)) ≡ word =
            trim_refill word (fill_of (top_of word)) 0 w.size (omega (arith, h)) (omega arith) in
          rw (← all_fill, t) (from_le-zeros 32)

      go : (t : Bool) → top_of word ≡ t → (top_of word ≡ true) ⊎ (0 < len_of word)
      go true e = inl e
      go false e = ground (arith, nonzero, zeros e)

  pub Codes-trimmed :
      from_le word ≢ 0
      → Codes 0 (write (take (len_of word) word)) (read_big_int_with_header (header_of word)) z
  Codes-trimmed nonzero =
      rw
        (read_header_lem (header_of word) (len_of word) (top_of word) (header_nonzero nonzero)
          (header_reserved (top_of word) (len_of word) len-le)
          (header_length (top_of word) (len_of word) len-le) len-le
          (header_sign (top_of word) (len_of word) len-le))
        (Codes-weaken 0 (omega arith) (
          Codes-end _
            (Codes-exact (len_of word) (take (len_of word) word)
              (length-take (len_of word) word (omega (arith, len-le, w.size))))
            back))
    where
      back :
          check_word
            (header_of word)
            (take (len_of word) word ++ replicate (32 - len_of word) (fill_of (top_of word)))
          ≡ pure z
      back =
          rw (trim_refill word (fill_of (top_of word)) (len_of word) w.size (omega arith) len-le) (
            check_word_lem (header_of word) word (header_sign (top_of word) (len_of word) len-le)
            ∙ ap pure w.value)

  pub pattern_nonzero : InRange (2 ^ 255) z → is_zero z ≡ false → from_le word ≢ 0
  pattern_nonzero h e = rw w.pattern_value (unsigned_nonzero z h e)

  Codes-word : from_le word ≢ 0 → Codes 1 (write_word word) read_big_int z
  unfolding write_word read_big_int
  Codes-word nonzero = Codes-bind _ (Codes-1 (header_of word)) (Codes-trimmed nonzero)

module _ ⦃big : BigIntBytes⦄ where
  write_big_int_zero : write_big_int (pos 0) ≡ write1 0
  unfolding write_big_int
  write_big_int_zero = refl

  pub write_big_int_word :
      (z : BigInt) (word : Bytes)
      → is_zero z ≡ false
      → signed_word_256 z ≡ ok word
      → write_big_int z ≡ write_word word
  unfolding write_big_int
  write_big_int_word z word n e = rw n (rw (e, write_big_int))

  Codes-zero : Codes 1 (write_big_int (pos 0)) read_big_int (pos 0)
  unfolding read_big_int read_big_int_with_header
  Codes-zero = rw write_big_int_zero (Codes-end _ (Codes-1 0) refl)

  -- Every integer of a signed 256-bit word.
  pub Codes-big_int : (z : BigInt) → InRange (2 ^ 255) z → Codes 1 (write_big_int z) read_big_int z
  Codes-big_int (pos zero) h = Codes-zero
  Codes-big_int (pos (suc n)) h =
      let (word, e, w) = signed_word_256_ok (pos (suc n)) h in
      rw (write_big_int_word (pos (suc n)) word (ground arith) e)
        (Codes-word (pos (suc n)) word w (pattern_nonzero (pos (suc n)) word w h (ground arith)))
  Codes-big_int (negsuc n) h =
      let (word, e, w) = signed_word_256_ok (negsuc n) h in
      rw (write_big_int_word (negsuc n) word refl e)
        (Codes-word (negsuc n) word w (pattern_nonzero (negsuc n) word w h refl))
