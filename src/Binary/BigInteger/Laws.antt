-- ===== src/Binary/BigInteger/Laws.antt =====
-- The numbers that are written in the VM format are read back, whatever their sign.
use phantasma_sdk_rs.Prelude.{
  ℕ, zero, suc, ◌+◌, ◌*◌, ◌/◌, ◌^◌, ◌≤◌, ◌<◌, ◌≡◌, refl, ap, ◌∙◌, sym, arith, pos, negsuc,
  to_signed, true, false, [], ◌∷◌, ◌++◌, length, ltb, le→ltb, lt→ltb, Bool-cases, inl, inr,
  length-append, All, append_assoc, append-nil, ltb→lt, ◌-◌, ◌==◌,
}
use phantasma_sdk_rs.Stream.{Bytes, from_le}
use phantasma_sdk_rs.Stream.Bytes.{All-append}
use phantasma_sdk_rs.BigInt.{BigInt, BigIntBytes, IsByte}
use phantasma_sdk_rs.Binary.BigInteger.{
  ends_in, sign_padding, big_int_to_csharp_bytes, big_int_to_vm_bytes, vm_bytes_to_big_int,
  write_big_integer, read_big_integer,
}
use phantasma_sdk_rs.Error.{ok, ok-injective}
use phantasma_sdk_rs.Stream.Codes.{Codes, Codes-end}
use phantasma_sdk_rs.Binary.{max_array_size}
use phantasma_sdk_rs.Binary.Laws.{Codes-var_bytes, PassesOver, Codes-PassesOver}
use native.Mathlib.Nat.{pow-suc}

-- The integer that bytes in two's complement stand for.
abbrev pub signed_value : Bytes → BigInt
signed_value bytes = to_signed (256 ^ length bytes / 2) (from_le bytes)

pow_half : (n : ℕ) → 0 < n → 2 * (256 ^ n / 2) ≡ 256 ^ n
pow_half zero h = absurd (omega arith)
pow_half (suc n) h = omega (arith, pow-suc 256 n)

from_le-snoc : (raw : Bytes) (b : ℕ) → from_le (raw ++ b ∷ []) ≡ from_le raw + b * 256 ^ length raw
unfolding from_le
from_le-snoc [] b = omega arith
from_le-snoc (x ∷ raw) b =
    omega (arith, from_le-snoc raw b, ap (λ (t : ℕ). b * t) (pow-suc 256 (length raw)))

length-snoc : (raw : Bytes) (b : ℕ) → length (raw ++ b ∷ []) ≡ suc (length raw)
length-snoc raw b = omega (arith, length-append raw (b ∷ []))

-- What the sign of a two's complement reading says of the bits, and back.
pos-injective : {n k : ℕ} → pos n ≡ pos k → n ≡ k
pos-injective e = cc

negsuc-injective : {n k : ℕ} → negsuc n ≡ negsuc k → n ≡ k
negsuc-injective e = cc

pos-negsuc : {n k : ℕ} → pos n ≡ negsuc k → ⊥
pos-negsuc e = cc

to_signed_low : (half v : ℕ) → ltb v half ≡ true → to_signed half v ≡ pos v
to_signed_low half v d = rw d

to_signed_high : (half v : ℕ) → ltb v half ≡ false → to_signed half v ≡ negsuc (2 * half - 1 - v)
to_signed_high half v d = rw d

to_signed_pos : (half v n : ℕ) → to_signed half v ≡ pos n → (v < half) × (v ≡ n)
to_signed_pos half v n e = elim (Bool-cases (ltb v half)) [
  | inl d ↦ (ltb→lt v half d, pos-injective (sym (to_signed_low half v d) ∙ e))
  | inr d ↦ absurd (pos-negsuc (sym e ∙ to_signed_high half v d))
]

to_signed_negsuc :
    (half v n : ℕ) → to_signed half v ≡ negsuc n → (half ≤ v) × (2 * half - 1 - v ≡ n)
to_signed_negsuc half v n e = elim (Bool-cases (ltb v half)) [
  | inl d ↦ absurd (pos-negsuc (sym (to_signed_low half v d) ∙ e))
  | inr d ↦ (ground arith, negsuc-injective (sym (to_signed_high half v d) ∙ e))
]

pos_to_signed : (half v n : ℕ) → v < half → v ≡ n → to_signed half v ≡ pos n
pos_to_signed half v n h e = rw (lt→ltb v half h, e)

negsuc_to_signed : (half v n : ℕ) → half ≤ v → 2 * half - 1 - v ≡ n → to_signed half v ≡ negsuc n
negsuc_to_signed half v n h e = rw (le→ltb v half h, e)

-- A zero byte behind a number that is not negative, and a byte 0xFF behind a negative one, keep its
-- value.
signed_value-zero :
    (raw : Bytes) (n : ℕ)
    → 0 < length raw
    → signed_value raw ≡ pos n
    → signed_value (raw ++ 0 ∷ []) ≡ pos n
signed_value-zero raw n h e =
    let (small, v) = to_signed_pos _ _ n e in
    let half = pow_half (length raw) h in
    let wide = pow-suc 256 (length raw) in
    rw (length-snoc, from_le-snoc)
      (pos_to_signed (256 ^ suc (length raw) / 2) (from_le raw + 0 * 256 ^ length raw) n
        (omega (arith, small, half, wide)) (omega (arith, v)))

signed_value-ones :
    (raw : Bytes) (n : ℕ)
    → 0 < length raw
    → All IsByte raw
    → signed_value raw ≡ negsuc n
    → signed_value (raw ++ 0xFF ∷ []) ≡ negsuc n
signed_value-ones raw n h bytes e =
    let (large, v) = to_signed_negsuc _ _ n e in
    let half = pow_half (length raw) h in
    let wide = pow-suc 256 (length raw) in
    rw (length-snoc, from_le-snoc)
      (negsuc_to_signed (256 ^ suc (length raw) / 2) (from_le raw + 0xFF * 256 ^ length raw) n
        (omega (arith, large, half, wide)) (omega (arith, v, half, wide)))

-- The padding keeps the value and the bytes.
signed_value-sign_padding :
    (value : BigInt) (raw : Bytes)
    → 0 < length raw
    → All IsByte raw
    → signed_value raw ≡ value
    → signed_value (raw ++ sign_padding value raw) ≡ value
unfolding sign_padding
signed_value-sign_padding (pos n) raw h bytes e = elim (Bool-cases (ends_in 0x00 raw)) [
  | inl d ↦ rw (d, append-nil) e
  | inr d ↦ rw d (signed_value-zero raw n h e)
]
signed_value-sign_padding (negsuc n) raw h bytes e =
    let once = signed_value-ones raw n h bytes e in
    elim (Bool-cases (length raw == 1)) [
      | inl d ↦
          rw (d, sym (append_assoc raw (0xFF ∷ []) (0xFF ∷ [])))
            (signed_value-ones (raw ++ 0xFF ∷ []) n (omega (arith, length-snoc raw 0xFF))
              (All-append raw (0xFF ∷ []) bytes (omega arith, tt)) once)
      | inr d ↦ elim (Bool-cases (ends_in 0xFF raw)) [
        | inl c ↦ rw (d, c) once
        | inr c ↦ rw (d, c, append-nil) e
      ]
    ]

sign_padding-IsByte : (value : BigInt) (raw : Bytes) → All IsByte (sign_padding value raw)
unfolding sign_padding
sign_padding-IsByte (pos n) raw = elim (Bool-cases (ends_in 0x00 raw)) [
  | inl d ↦ rw d tt
  | inr d ↦ rw d (omega arith, tt)
]
sign_padding-IsByte (negsuc n) raw = elim (Bool-cases (length raw == 1)) [
  | inl d ↦ rw d (omega arith, (omega arith, tt))
  | inr d ↦ elim (Bool-cases (ends_in 0xFF raw)) [
    | inl c ↦ rw (d, c) (omega arith, tt)
    | inr c ↦ rw (d, c) tt
  ]
]

module _ ⦃big : BigIntBytes⦄ where
  csharp_suc :
      (n : ℕ) → big_int_to_csharp_bytes (pos (suc n)) ≡ big.to_signed_bytes_le (pos (suc n))
  unfolding big_int_to_csharp_bytes
  csharp_suc n = let some_bit : (suc n == 0) ≡ false = ground arith in rw some_bit

  csharp-IsByte : (value : BigInt) → All IsByte (big_int_to_csharp_bytes value)
  csharp-IsByte (pos zero) = unfold big_int_to_csharp_bytes in (omega arith, tt)
  csharp-IsByte (pos (suc n)) = rw csharp_suc (big.to_signed_bytes_le-IsByte (pos (suc n)))
  csharp-IsByte (negsuc n) =
      unfold big_int_to_csharp_bytes in big.to_signed_bytes_le-IsByte (negsuc n)

  csharp_pos : (value : BigInt) → 0 < length (big_int_to_csharp_bytes value)
  csharp_pos (pos zero) = unfold big_int_to_csharp_bytes in omega arith
  csharp_pos (pos (suc n)) = rw csharp_suc (big.to_signed_bytes_le_pos (pos (suc n)))
  csharp_pos (negsuc n) = unfold big_int_to_csharp_bytes in big.to_signed_bytes_le_pos (negsuc n)

  signed_value-csharp : (value : BigInt) → signed_value (big_int_to_csharp_bytes value) ≡ value
  signed_value-csharp (pos zero) = unfold big_int_to_csharp_bytes from_le in refl
  signed_value-csharp (pos (suc n)) = rw csharp_suc (big.to_signed_bytes_le-value (pos (suc n)))
  signed_value-csharp (negsuc n) =
      unfold big_int_to_csharp_bytes in big.to_signed_bytes_le-value (negsuc n)

  abbrev pub padded : BigInt → Bytes
  padded value = big_int_to_csharp_bytes value ++ sign_padding value (big_int_to_csharp_bytes value)

  pub big_int_to_vm_bytes-padded : (value : BigInt) → big_int_to_vm_bytes value ≡ ok (padded value)
  unfolding big_int_to_vm_bytes
  big_int_to_vm_bytes-padded value = refl

  read_nonempty :
      (raw : Bytes) → 0 < length raw → All IsByte raw → vm_bytes_to_big_int raw ≡ signed_value raw
  unfolding vm_bytes_to_big_int
  read_nonempty [] h bytes = absurd (omega arith)
  read_nonempty (b ∷ raw) h bytes = big.from_signed_bytes_le-value (b ∷ raw) bytes h

  pub vm_bytes_to_big_int-padded : (value : BigInt) → vm_bytes_to_big_int (padded value) ≡ value
  vm_bytes_to_big_int-padded value =
      let raw = big_int_to_csharp_bytes value in
      let longer = length-append raw (sign_padding value raw) in
      let kept = All-append raw _ (csharp-IsByte value) (sign_padding-IsByte value raw) in
      read_nonempty (padded value) (omega (arith, longer, csharp_pos value)) kept
      ∙ signed_value-sign_padding value raw (csharp_pos value) (csharp-IsByte value)
          (signed_value-csharp value)

  pub Codes-big_integer :
      (value : BigInt)
      → length (padded value) ≤ max_array_size
      → Codes 1 (write_big_integer value) read_big_integer value
  unfolding write_big_integer read_big_integer
  Codes-big_integer value h =
      let whole = Codes-var_bytes max_array_size (padded value) h (omega arith) in
      Codes-end _ whole (rw (vm_bytes_to_big_int-padded value))

  -- A number of either sign whose encoding has at most 0x01000000 bytes is read by
  -- `read_big_integer` as `write_big_integer` wrote it, whatever the padding with its sign was.
  pub read_big_integer-write_big_integer :
      (value : BigInt) (raw : Bytes)
      → big_int_to_vm_bytes value ≡ ok raw
      → length raw ≤ max_array_size
      → PassesOver (write_big_integer value) read_big_integer value
  read_big_integer-write_big_integer value raw made h =
      let same = ok-injective (sym made ∙ big_int_to_vm_bytes-padded value) in
      Codes-PassesOver _ _ value (Codes-big_integer value (omega (arith, h, ap length same)))
