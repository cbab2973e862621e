-- ===== src/Carbon/IntX/Short.antt =====
-- IntX is read as it was written, in the eight-byte form and in the compact form.
use phantasma_sdk_rs.Prelude.{
  ℕ, zero, suc, ◌+◌, ◌-◌, ◌*◌, ◌^◌, ◌≤◌, ◌<◌, ◌≡◌, ◌≢◌, inl, inr, refl, sym, ap, ◌∙◌, arith, ℤ, pos,
  negsuc, to_signed, to_unsigned, to_signed-to_unsigned, to_unsigned-lt, is_negative, InRange, [],
  ◌∷◌, ◌++◌, Bool, true, false, ltb, ◌==◌, if◌then◌else◌, length, take, replicate, get_or, bit_and,
  le→ltb, lt→ltb, Bool-cases,
}
use phantasma_sdk_rs.Error.{ok}
use phantasma_sdk_rs.Stream.{Bytes, pure, ◌>>=◌, write, read, from_le, le_bytes}
use phantasma_sdk_rs.Stream.Codes.{
  Codes, Codes-bind, Codes-end, Codes-exact, Codes-weaken, from_le-le_bytes, length-le_bytes,
}
use phantasma_sdk_rs.Stream.Bytes.{
  from_le-append, from_le-zeros, from_le-lt, from_le-top, All-take, length-take,
}
use phantasma_sdk_rs.BigInt.{BigInt, BigIntBytes, signed_word_256, signed_word_to_big_int}
use phantasma_sdk_rs.Carbon.Wire.{half64, write8}
use phantasma_sdk_rs.Carbon.Wire.Laws.{Codes-1}
use phantasma_sdk_rs.Carbon.IntX.{
  IntX, write_int_x, read_int_x, fill_of, has_bits, write_word, same, is_zero,
  read_big_int_with_header, is_8_byte_safe, short_int_x, read_int_x_with_header,
}
use phantasma_sdk_rs.Carbon.IntX.Word.{
  WordOf, signed_word_256_ok, trim_fill, trim_refill, header_length, header_sign,
}
use phantasma_sdk_rs.Carbon.IntX.Laws.{
  top_of, len_of, header_of, len-le, Codes-trimmed, pattern_nonzero, write_big_int_word, same_refl,
}

-- The value fits a signed 256-bit word.
abbrev pub InWord : IntX → Type 0
InWord x = InRange (2 ^ 255) x.value

safe_low :
    (z : ℤ) → InRange (2 ^ 255) z → to_unsigned (2 ^ 255) z < half64 → is_8_byte_safe z ≡ true
unfolding is_8_byte_safe
safe_low (pos n) h lt = lt→ltb n half64 (omega arith)
safe_low (negsuc n) h lt = absurd (omega arith)

safe_high :
    (z : ℤ)
    → InRange (2 ^ 255) z
    → 2 ^ 256 - half64 ≤ to_unsigned (2 ^ 255) z
    → is_8_byte_safe z ≡ true
unfolding is_8_byte_safe
safe_high (pos n) h le = absurd (omega arith)
safe_high (negsuc n) h le = lt→ltb n half64 (omega arith)

get_or-take : (k i : ℕ) (xs : Bytes) → i < k → get_or (take k xs) i 0 ≡ get_or xs i 0
get_or-take zero i xs h = absurd (omega arith)
get_or-take (suc k) i [] h = refl
get_or-take (suc k) zero (x ∷ xs) h = refl
get_or-take (suc k) (suc i) (x ∷ xs) h = get_or-take k i xs (omega arith)

tail_high : from_le (replicate 24 0xFF) ≡ 256 ^ 24 - 1
unfolding from_le
tail_high = refl

sign_low : (n : ℕ) → same false (is_negative (to_signed half64 n)) ≡ true → n < half64
sign_low n h = ground arith

sign_high : (n : ℕ) → same true (is_negative (to_signed half64 n)) ≡ true → half64 ≤ n
sign_high n h = ground arith

low_sign : (n : ℕ) → n < half64 → same false (is_negative (to_signed half64 n)) ≡ true
low_sign n h = ground arith

high_sign : (n : ℕ) → half64 ≤ n → same true (is_negative (to_signed half64 n)) ≡ true
high_sign n h = ground arith

module _ ⦃big : BigIntBytes⦄ where
  short_word :
      (header : ℕ) (bytes : Bytes) (t : Bool)
      → has_bits header 0x80 ≡ t
      → same t (is_negative (to_signed half64 (from_le bytes))) ≡ false
      → short_int_x header bytes
        ≡ record { value = signed_word_to_big_int (bytes ++ replicate 24 (fill_of t)) }
  unfolding short_int_x
  short_word header bytes t sign differ = rw (sign, differ)

  short_value :
      (header : ℕ) (bytes : Bytes) (z : ℤ)
      → to_signed half64 (from_le bytes) ≡ z
      → has_bits header 0x80 ≡ is_negative z
      → short_int_x header bytes ≡ record { value = z }
  unfolding short_int_x
  short_value header bytes z e sign = rw (e, sign, same_refl (is_negative z))

  read_int_x_lem :
      (header len : ℕ)
      → bit_and header 0x3F ≡ len
      → 8 ≤ len
      → read_int_x_with_header header ≡ (
          if len == 8
          then (read 8 >>= λ raw. pure (short_int_x header raw))
          else (read_big_int_with_header header >>= λ value. pure (record { value = value })))
  unfolding read_int_x_with_header
  read_int_x_lem header len e h = rw (e, le→ltb len 8 h)

  -- The eight bytes of an i64 behind a header of its sign.
  Codes-eight :
      (z : ℤ) (header : ℕ)
      → bit_and header 0x3F ≡ 8
      → has_bits header 0x80 ≡ is_negative z
      → InRange half64 z
      → Codes 8
          (write (le_bytes 8 (to_unsigned half64 z)))
          (read_int_x_with_header header)
          (record { value = z })
  Codes-eight z header size sign h =
      let bits : from_le (le_bytes 8 (to_unsigned half64 z)) ≡ to_unsigned half64 z =
        from_le-le_bytes 8 _ (omega (arith, to_unsigned-lt half64 z)) in
      rw (read_int_x_lem header 8 size (omega arith)) (
        Codes-end _ (Codes-exact 8 _ (length-le_bytes 8 (to_unsigned half64 z)))
          (ap pure (short_value header _ z (rw bits (to_signed-to_unsigned half64 z h)) sign)))

module _ ⦃big : BigIntBytes⦄ (z : BigInt) (word : Bytes) (w : WordOf z word)
    (range : InRange (2 ^ 255) z) where
  abbrev raw : Bytes
  raw = take 8 word

  length-raw : length raw ≡ 8
  length-raw = length-take 8 word (omega (arith, w.size))

  word_split : len_of word ≤ 8 → raw ++ replicate 24 (fill_of (top_of word)) ≡ word
  word_split h = trim_refill word (fill_of (top_of word)) 8 w.size h (omega arith)

  value_split :
      len_of word ≤ 8
      → from_le word ≡ from_le raw + 256 ^ 8 * from_le (replicate 24 (fill_of (top_of word)))
  value_split h = ap from_le (sym (word_split h)) ∙ from_le-append raw _ ∙ rw length-raw

  -- Eight bytes of which the sign is the word's hold an i64.
  safe_of_sign :
      len_of word ≤ 8
      → same (top_of word) (is_negative (to_signed half64 (from_le raw))) ≡ true
      → is_8_byte_safe z ≡ true
  safe_of_sign h agree = elim (Bool-cases (top_of word)) [
    | inl t ↦
        let value : from_le word ≡ from_le raw + 256 ^ 8 * from_le (replicate 24 0xFF) =
          rw t at (value_split h) in
        let high : half64 ≤ from_le raw = sign_high (from_le raw) (rw t at agree) in
        safe_high z range (omega (arith, w.pattern_value, value, tail_high, high))
    | inr t ↦
        let value : from_le word ≡ from_le raw + 256 ^ 8 * from_le (replicate 24 0) =
          rw t at (value_split h) in
        let low : from_le raw < half64 = sign_low (from_le raw) (rw t at agree) in
        safe_low z range (omega (arith, w.pattern_value, value, from_le-zeros 24, low))
  ]

  -- The eighth byte is the fill byte of a word that is trimmed further.
  raw_top : len_of word < 8 → from_le raw ≡ from_le (take 7 raw) + 256 ^ 7 * fill_of (top_of word)
  raw_top h =
      let last : get_or raw 7 0 ≡ fill_of (top_of word) =
        get_or-take 8 7 word (omega arith)
        ∙ trim_fill word (fill_of (top_of word)) 32 7 (omega arith) (omega arith) in
      from_le-top 7 raw length-raw ∙ rw last

  raw_low : from_le (take 7 raw) < 256 ^ 7
  raw_low =
      let short : length (take 7 raw) ≡ 7 = length-take 7 raw (omega (arith, length-raw)) in
      rw short at (from_le-lt (take 7 raw) (All-take 7 raw (All-take 8 word w.all_bytes)))

  long_of_unsafe : is_8_byte_safe z ≡ false → 8 ≤ len_of word
  long_of_unsafe unsafe = elim (Bool-cases (ltb (len_of word) 8)) [
    | inr e ↦ ground arith
    | inl e ↦
        let h : len_of word < 8 = ground arith in
        absurd (cc (unsafe, safe_of_sign (omega arith) (agree h)))
  ]
    where
      agree :
          len_of word < 8 → same (top_of word) (is_negative (to_signed half64 (from_le raw))) ≡ true
      agree h = elim (Bool-cases (top_of word)) [
        | inl t ↦
            let top : from_le raw ≡ from_le (take 7 raw) + 256 ^ 7 * 0xFF = rw t at (raw_top h) in
            rw t (high_sign (from_le raw) (omega (arith, top)))
        | inr t ↦
            let top : from_le raw ≡ from_le (take 7 raw) + 256 ^ 7 * 0 = rw t at (raw_top h) in
            rw t (low_sign (from_le raw) (omega (arith, top, raw_low)))
      ]

  short_int_x_lem :
      is_8_byte_safe z ≡ false
      → len_of word ≡ 8
      → short_int_x (header_of word) raw ≡ record { value = z }
  short_int_x_lem unsafe len =
      elim (Bool-cases (same (top_of word) (is_negative (to_signed half64 (from_le raw))))) [
        | inl e ↦ absurd (cc (unsafe, safe_of_sign (omega (arith, len)) e))
        | inr e ↦
            short_word (header_of word) raw (top_of word)
              (header_sign (top_of word) (len_of word) (len-le z word w)) e
            ∙ rw (word_split (omega (arith, len)), w.value)
      ]

  Codes-long :
      is_8_byte_safe z ≡ false
      → from_le word ≢ 0
      → Codes 0
          (write (take (len_of word) word))
          (read_int_x_with_header (header_of word))
          (record { value = z })
  Codes-long unsafe nonzero =
      rw
        (read_int_x_lem (header_of word) (len_of word)
          (header_length (top_of word) (len_of word) (len-le z word w)) (long_of_unsafe unsafe))
        (elim (Bool-cases (len_of word == 8)) [
          | inl e ↦
              let len : len_of word ≡ 8 = ground arith in
              rw e (
                rw len (
                  Codes-weaken 0 (omega arith) (
                    Codes-end _ (Codes-exact 8 raw length-raw)
                      (rw len at (ap pure (short_int_x_lem unsafe len))))))
          | inr e ↦ rw e (Codes-end _ (Codes-trimmed z word w nonzero) refl)
        ])

  Codes-unsafe :
      signed_word_256 z ≡ ok word
      → is_8_byte_safe z ≡ false
      → is_zero z ≡ false
      → Codes 1 (write_int_x (record { value = z })) read_int_x (record { value = z })
  unfolding write_int_x read_int_x write_word
  Codes-unsafe e unsafe nonzero = rw unsafe (
      rw (write_big_int_word z word nonzero e) (
        Codes-bind _ (Codes-1 (header_of word))
          (Codes-long unsafe (pattern_nonzero z word w range nonzero))))

safe_range : (z : ℤ) → is_8_byte_safe z ≡ true → InRange half64 z
unfolding is_8_byte_safe
safe_range (pos n) h = ground arith
safe_range (negsuc n) h = ground arith

unsafe_nonzero : (z : ℤ) → is_8_byte_safe z ≡ false → is_zero z ≡ false
unfolding is_8_byte_safe
unsafe_nonzero (pos n) h = ground arith
unsafe_nonzero (negsuc n) h = refl

module _ ⦃big : BigIntBytes⦄ where
  Codes-safe :
      (z : ℤ)
      → is_8_byte_safe z ≡ true
      → Codes 1 (write_int_x (record { value = z })) read_int_x (record { value = z })
  unfolding write_int_x read_int_x write8
  Codes-safe (pos n) h = rw h (
      Codes-weaken 1 (omega arith)
        (Codes-bind _ (Codes-1 0x08) (Codes-eight (pos n) 0x08 refl refl (safe_range (pos n) h))))
  Codes-safe (negsuc n) h = rw h (
      Codes-weaken 1 (omega arith) (
        Codes-bind _ (Codes-1 0x88)
          (Codes-eight (negsuc n) 0x88 refl refl (safe_range (negsuc n) h))))

  -- Every integer of a signed 256-bit word, in the form that the writer chooses for it.
  pub Codes-int_x : (x : IntX) → InWord x → Codes 1 (write_int_x x) read_int_x x
  Codes-int_x x h = elim (Bool-cases (is_8_byte_safe x.value)) [
    | inl safe ↦ Codes-safe x.value safe
    | inr unsafe ↦
        let (word, e, w) = signed_word_256_ok x.value h in
        Codes-unsafe x.value word w h e unsafe (unsafe_nonzero x.value unsafe)
  ]
