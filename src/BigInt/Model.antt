-- ===== src/BigInt/Model.antt =====
-- A concrete instance of the conversions of num-bigint, which shows that what is asked of the crate
-- can hold.
use phantasma_sdk_rs.Prelude.{
  pos, negsuc, ◌*◌, to_unsigned, to_unsigned-lt, to_signed-to_unsigned, InRange, subst, ℕ, zero,
  suc, ◌/◌, ◌%◌, ◌^◌, ◌≤◌, ◌<◌, ◌≡◌, refl, arith, ap, to_signed, [], ◌∷◌, All, length, ltb, true,
  false, Bool-cases, inl, inr, ltb→lt, lt→ltb,
}
use phantasma_sdk_rs.Stream.{Bytes, from_le, le_bytes}
use phantasma_sdk_rs.Stream.Bytes.{from_le-lt}
use phantasma_sdk_rs.Stream.Codes.{from_le-le_bytes, length-le_bytes}
use native.Mathlib.Nat.{pow-suc}
use phantasma_sdk_rs.BigInt.{BigInt, BigIntBytes, IsByte, magnitude}

-- The digits of a number in base 256, lowest first; the fuel bounds their number.
unfoldable pub digits : ℕ → ℕ → Bytes
digits zero n = []
digits (suc fuel) n = elim (ltb n 256) [ true ↦ n ∷ [] | false ↦ n % 256 ∷ digits fuel (n / 256) ]

digits_last : (fuel n : ℕ) → ltb n 256 ≡ true → digits (suc fuel) n ≡ n ∷ []
unfolding digits
digits_last fuel n e =
    ap (λ b. elim b [ true ↦ n ∷ [] | false ↦ n % 256 ∷ digits fuel (n / 256) ]) e

digits_more :
    (fuel n : ℕ) → ltb n 256 ≡ false → digits (suc fuel) n ≡ n % 256 ∷ digits fuel (n / 256)
unfolding digits
digits_more fuel n e =
    ap (λ b. elim b [ true ↦ n ∷ [] | false ↦ n % 256 ∷ digits fuel (n / 256) ]) e

from_le_last : (n : ℕ) → from_le (n ∷ []) ≡ n
unfolding from_le
from_le_last n = omega arith

from_le_more : (n : ℕ) (rest : Bytes) → from_le rest ≡ n / 256 → from_le (n % 256 ∷ rest) ≡ n
unfolding from_le
from_le_more n rest h = omega arith

pub digits-value : (fuel n : ℕ) → n < fuel → from_le (digits fuel n) ≡ n
digits-value zero n h = absurd (omega arith)
digits-value (suc fuel) n h = elim (Bool-cases (ltb n 256)) [
  | inl e ↦ rw (digits_last fuel n e) (from_le_last n)
  | inr e ↦
      let bound : 256 ≤ n = ground arith in
      let rest = digits-value fuel (n / 256) (omega (arith, bound)) in
      rw (digits_more fuel n e) (from_le_more n _ rest)
]

pub digits-IsByte : (fuel n : ℕ) → All IsByte (digits fuel n)
digits-IsByte zero n = unfold digits in tt
digits-IsByte (suc fuel) n = elim (Bool-cases (ltb n 256)) [
  | inl e ↦ rw (digits_last fuel n e) (ltb→lt n 256 e, tt)
  | inr e ↦ rw (digits_more fuel n e) (omega arith, digits-IsByte fuel (n / 256))
]

pub digits-short : (fuel n k : ℕ) → n < 256 ^ suc k → length (digits fuel n) ≤ suc k
digits-short zero n k h = unfold digits in omega arith
digits-short (suc fuel) n zero h =
    rw (digits_last fuel n (lt→ltb n 256 (omega arith))) (omega arith)
digits-short (suc fuel) n (suc k) h = elim (Bool-cases (ltb n 256)) [
  | inl e ↦ rw (digits_last fuel n e) (omega arith)
  | inr e ↦
      let small : n / 256 < 256 ^ suc k = omega (arith, pow-suc 256 (suc k), h) in
      rw (digits_more fuel n e) (omega (arith, digits-short fuel (n / 256) k small))
]

-- A byte more than the digits of the number, so that its sign has a bit.
abbrev pub signed_width : BigInt → ℕ
signed_width (pos n) = suc (length (digits (suc n) n))
signed_width (negsuc n) = suc (length (digits (suc n) n))

abbrev pub signed_bytes : BigInt → Bytes
signed_bytes z = le_bytes (signed_width z) (to_unsigned (256 ^ signed_width z / 2) z)

signed_half : (width : ℕ) → 2 * (256 ^ suc width / 2) ≡ 256 ^ suc width
signed_half width = omega (arith, pow-suc 256 width)

digits_fit : (n : ℕ) → n < 256 ^ suc (length (digits (suc n) n)) / 2
digits_fit n =
    let value = digits-value (suc n) n (omega arith) in
    let small = from_le-lt (digits (suc n) n) (digits-IsByte (suc n) n) in
    omega (arith, value, small, pow-suc 256 (length (digits (suc n) n)))

signed_bytes_InRange : (z : BigInt) → InRange (256 ^ signed_width z / 2) z
signed_bytes_InRange (pos n) = digits_fit n
signed_bytes_InRange (negsuc n) = digits_fit n

signed_width_form : (z : BigInt) → (n : ℕ) × (signed_width z ≡ suc n)
signed_width_form (pos n) = (_, refl)
signed_width_form (negsuc n) = (_, refl)

pub signed_width_pos : (z : BigInt) → 0 < signed_width z
signed_width_pos (pos n) = omega arith
signed_width_pos (negsuc n) = omega arith

pow-pos : (width : ℕ) → 0 < 256 ^ width
pow-pos zero = omega arith
pow-pos (suc width) = omega (arith, pow-suc 256 width, pow-pos width)

half_pos : (width : ℕ) → 0 < 256 ^ suc width / 2
half_pos width = omega (arith, pow-suc 256 width, pow-pos width)

le_bytes_back :
    (width : ℕ) (z : BigInt)
    → InRange (256 ^ suc width / 2) z
    → from_le (le_bytes (suc width) (to_unsigned (256 ^ suc width / 2) z))
      ≡ to_unsigned (256 ^ suc width / 2) z
le_bytes_back width z h =
    from_le-le_bytes (suc width) _
      (omega (arith, to_unsigned-lt (256 ^ suc width / 2) z (half_pos width), signed_half width))

pub signed_bytes-value :
    (z : BigInt) → to_signed (256 ^ length (signed_bytes z) / 2) (from_le (signed_bytes z)) ≡ z
signed_bytes-value z =
    let (width, e) = signed_width_form z in
    let range : InRange (256 ^ suc width / 2) z =
      subst (λ w. InRange (256 ^ w / 2) z) e (signed_bytes_InRange z) in
    rw (
      length-le_bytes,
      e,
      le_bytes_back width z range,
      to_signed-to_unsigned (256 ^ suc width / 2) z range,
    )

pub le_bytes-IsByte : (width n : ℕ) → All IsByte (le_bytes width n)
unfolding le_bytes
le_bytes-IsByte zero n = tt
le_bytes-IsByte (suc width) n = (omega arith, le_bytes-IsByte width (n / 256))

instance abbrev pub model : BigIntBytes
model = record {
  to_bytes_le = λ z. digits (suc (magnitude z)) (magnitude z);
  from_signed_bytes_le = λ bytes. to_signed (256 ^ length bytes / 2) (from_le bytes);
  to_bytes_le-value = λ z. digits-value (suc (magnitude z)) (magnitude z) (omega arith);
  to_bytes_le-IsByte = λ z. digits-IsByte (suc (magnitude z)) (magnitude z);
  to_bytes_le-short = λ z n h. digits-short (suc (magnitude z)) (magnitude z) n h;
  from_signed_bytes_le-value = λ bytes h k. refl;
  to_signed_bytes_le = signed_bytes;
  to_signed_bytes_le-value = signed_bytes-value;
  to_signed_bytes_le-IsByte = λ z. le_bytes-IsByte (signed_width z) _;
  to_signed_bytes_le_pos = λ z. rw (length-le_bytes (signed_width z)) (signed_width_pos z);
}
