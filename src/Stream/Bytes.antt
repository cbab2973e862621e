-- ===== src/Stream/Bytes.antt =====
-- Bytes as digits: what a little-endian number is made of, and cutting and filling byte lists.
use phantasma_sdk_rs.Prelude.{
  ℕ, zero, suc, ◌+◌, ◌-◌, ◌*◌, ◌^◌, ◌≤◌, ◌<◌, ◌≡◌, refl, ap, arith, List, [], ◌∷◌, ◌++◌, length,
  take, drop, replicate, get_or, All,
}
use phantasma_sdk_rs.Stream.{Bytes, from_le}
use native.Mathlib.Nat.{pow-suc}

abbrev pub IsByte : ℕ → Type 0
IsByte b = b < 256

pub from_le-append :
    (xs ys : Bytes) → from_le (xs ++ ys) ≡ from_le xs + 256 ^ length xs * from_le ys
unfolding from_le
from_le-append [] ys = omega arith
from_le-append (x ∷ xs) ys =
    omega (arith, from_le-append xs ys, ap (λ (t : ℕ). t * from_le ys) (pow-suc 256 (length xs)))

pub from_le-lt : (xs : Bytes) → All IsByte xs → from_le xs < 256 ^ length xs
unfolding from_le
from_le-lt [] h = omega arith
from_le-lt (x ∷ xs) (h, hs) = omega (arith, from_le-lt xs hs, pow-suc 256 (length xs))

pub from_le-zeros : (n : ℕ) → from_le (replicate n 0) ≡ 0
unfolding from_le
from_le-zeros zero = refl
from_le-zeros (suc n) = omega (arith, from_le-zeros n)

pub take_all {ℓ} : {A : Type ℓ} (n : ℕ) (xs : List A) → length xs ≡ n → take n xs ≡ xs
take_all zero [] h = refl
take_all (suc n) [] h = refl
take_all zero (x ∷ xs) h = absurd (omega arith)
take_all (suc n) (x ∷ xs) h = ap (λ t. x ∷ t) (take_all n xs (omega arith))

pub length-take {ℓ} : {A : Type ℓ} (n : ℕ) (xs : List A) → n ≤ length xs → length (take n xs) ≡ n
length-take zero xs h = refl
length-take (suc n) [] h = absurd (omega arith)
length-take (suc n) (x ∷ xs) h = ap suc (length-take n xs (omega arith))

pub All-append : (xs ys : Bytes) → All IsByte xs → All IsByte ys → All IsByte (xs ++ ys)
All-append [] ys h k = k
All-append (x ∷ xs) ys (h, hs) k = (h, All-append xs ys hs k)

pub All-replicate : (n x : ℕ) → IsByte x → All IsByte (replicate n x)
All-replicate zero x h = tt
All-replicate (suc n) x h = (h, All-replicate n x h)

pub All-take : (n : ℕ) (xs : Bytes) → All IsByte xs → All IsByte (take n xs)
All-take zero xs h = tt
All-take (suc n) [] h = tt
All-take (suc n) (x ∷ xs) (h, hs) = (h, All-take n xs hs)

pub length-drop : (n : ℕ) (xs : Bytes) → length (drop n xs) ≡ length xs - n
length-drop zero xs = omega arith
length-drop (suc n) [] = omega arith
length-drop (suc n) (x ∷ xs) = omega (arith, length-drop n xs)

pub All-drop : (n : ℕ) (xs : Bytes) → All IsByte xs → All IsByte (drop n xs)
All-drop zero xs h = h
All-drop (suc n) [] h = tt
All-drop (suc n) (x ∷ xs) (h, hs) = All-drop n xs hs

-- The highest digit.
pub from_le-top :
    (n : ℕ) (xs : Bytes)
    → length xs ≡ suc n
    → from_le xs ≡ from_le (take n xs) + 256 ^ n * get_or xs n 0
unfolding from_le
from_le-top n [] h = absurd (omega arith)
from_le-top zero (x ∷ []) h = omega arith
from_le-top zero (x ∷ y ∷ xs) h = absurd (omega arith)
from_le-top (suc n) (x ∷ xs) h =
    omega (arith, from_le-top n xs (omega arith), ap (λ (t : ℕ). t * get_or xs n 0) (pow-suc 256 n))

refill_whole :
    (xs : Bytes) (fill : ℕ)
    → ((i : ℕ) → i < length xs → get_or xs i 0 ≡ fill)
    → replicate (length xs) fill ≡ xs
refill_whole [] fill same = refl
refill_whole (x ∷ xs) fill same =
    let first : x ≡ fill = same 0 (omega arith) in
    rw first (ap (λ t. fill ∷ t) (refill_whole xs fill (λ i p. same (suc i) (omega arith))))

-- A list that has one value from an index on.
pub refill :
    (k : ℕ) (xs : Bytes) (fill : ℕ)
    → k ≤ length xs
    → ((i : ℕ) → k ≤ i → i < length xs → get_or xs i 0 ≡ fill)
    → take k xs ++ replicate (length xs - k) fill ≡ xs
refill zero xs fill h same =
    let e : length xs - 0 ≡ length xs = omega arith in
    rw e (refill_whole xs fill (λ i p. same i (omega arith) p))
refill (suc k) [] fill h same = absurd (omega arith)
refill (suc k) (x ∷ xs) fill h same =
    let e : suc (length xs) - suc k ≡ length xs - k = omega arith in
    rw e (
      ap (λ t. x ∷ t)
        (refill k xs fill (omega arith) (λ i p q. same (suc i) (omega arith) (omega arith))))
