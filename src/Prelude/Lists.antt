-- ===== src/Prelude/Lists.antt =====
-- Lists measured by native numbers.
use Prim.Native.Nat.{ℕ, zero, suc, ◌+◌}
use mathlib.Core.Path.{◌≡◌, refl, ap}
use mathlib.Core.List.{List, [], ◌∷◌, ◌++◌, map}
use native.Mathlib.Omega.{arith}
use mathlib.Core.Bool.{Bool, true, false}
use phantasma_sdk_rs.Prelude.Tests.{◌==◌, ==_refl, if◌then◌else◌}

module _ {ℓ} {A : Type ℓ} where
  abbrev pub length : List A → ℕ
  length [] = 0
  length (x ∷ xs) = suc (length xs)

  abbrev pub take : ℕ → List A → List A
  take zero xs = []
  take (suc n) [] = []
  take (suc n) (x ∷ xs) = x ∷ take n xs

  abbrev pub drop : ℕ → List A → List A
  drop zero xs = xs
  drop (suc n) [] = []
  drop (suc n) (x ∷ xs) = drop n xs

  abbrev pub replicate : ℕ → A → List A
  replicate zero x = []
  replicate (suc n) x = x ∷ replicate n x

  -- The element at an index, or a given one out of range.
  abbrev pub get_or : List A → ℕ → A → A
  get_or [] i d = d
  get_or (x ∷ xs) zero d = x
  get_or (x ∷ xs) (suc i) d = get_or xs i d

  abbrev pub All {κ} : (A → Type κ) → List A → Type κ
  All P [] = Unit {κ}
  All P (x ∷ xs) = P x × All P xs

  pub length-append : (xs ys : List A) → length (xs ++ ys) ≡ length xs + length ys
  length-append [] ys = omega arith
  length-append (x ∷ xs) ys = omega (arith, length-append xs ys)

  pub length-replicate : (n : ℕ) (x : A) → length (replicate n x) ≡ n
  length-replicate zero x = refl
  length-replicate (suc n) x = ap suc (length-replicate n x)

  pub drop-append : (xs ys : List A) → drop (length xs) (xs ++ ys) ≡ ys
  drop-append [] ys = refl
  drop-append (x ∷ xs) ys = drop-append xs ys

  pub take-append : (xs ys : List A) → take (length xs) (xs ++ ys) ≡ xs
  take-append [] ys = refl
  take-append (x ∷ xs) ys = ap (λ t. x ∷ t) (take-append xs ys)

pub length-map {ℓ κ} :
    {A : Type ℓ} {B : Type κ} (f : A → B) (xs : List A) → length (map f xs) ≡ length xs
length-map f [] = refl
length-map f (x ∷ xs) = ap suc (length-map f xs)

pub All-map {ℓ κ μ} :
    {A : Type ℓ} {P : A → Type κ} {Q : A → Type μ} (f : (x : A) → P x → Q x) (xs : List A)
    → All P xs
    → All Q xs
All-map f [] h = tt
All-map f (x ∷ xs) (h, hs) = (f x h, All-map f xs hs)

-- Equality of lists of numbers, which `==` on byte arrays is.
unfoldable pub list_eq : List ℕ → List ℕ → Bool
list_eq [] [] = true
list_eq (x ∷ xs) (y ∷ ys) = let rest = list_eq xs ys in if x == y then rest else false
list_eq _ _ = false

pub list_eq_refl : (xs : List ℕ) → list_eq xs xs ≡ true
unfolding list_eq
list_eq_refl [] = refl
list_eq_refl (x ∷ xs) = rw (==_refl x) (list_eq_refl xs)

pub list_eq→eq : (xs ys : List ℕ) → list_eq xs ys ≡ true → xs ≡ ys
unfolding list_eq
list_eq→eq [] [] h = refl
list_eq→eq [] (y ∷ ys) h = cc
list_eq→eq (x ∷ xs) [] h = cc
list_eq→eq (x ∷ xs) (y ∷ ys) h = ground (arith, list_eq→eq xs ys)
