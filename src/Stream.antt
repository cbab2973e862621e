-- ===== src/Stream.antt =====
-- The byte streams that the VM format (src/binary.rs) and the Carbon format (src/carbon.rs) share:
-- a growing buffer to write to, and a slice with an offset to read from.
pub mod Codes
pub mod Bytes
use phantasma_sdk_rs.Prelude.{
  ℕ, zero, suc, ◌+◌, ◌-◌, ◌/◌, ◌%◌, ◌*◌, List, [], ◌∷◌, ◌++◌, ltb, ◌==◌, if◌then◌else◌, length,
  take, drop,
}
use phantasma_sdk_rs.Error.{Result, ok, err, PhantasmaError, serialization}

-- A byte slice is a list of numbers, each below 256 in the program.
abbrev pub Bytes : Type 0
Bytes = List ℕ

pub record Writer : Type 0 where
  pub buffer : Bytes

pub record Reader : Type 0 where
  pub data_bytes : Bytes
  pub offset : ℕ

-- A method that writes. One that cannot fail always answers `ok`.
abbrev pub Put : Type 0
Put = Writer → Result Writer

-- A method that reads. After an error the program does not use the reader again.
abbrev pub Get {ℓ} : Type ℓ → Type ℓ
Get A = Reader → Result (A × Reader)

-- Sequencing of writes, with the early return of `?`.
infixr 4 ◌▹◌
unfoldable pub ◌▹◌ : Put → Put → Put
(p ▹ q) w = elim (p w) [ ok w' ↦ q w' | err e ↦ err e ]

unfoldable pub skip : Put
skip w = ok w

unfoldable pub fail_put : PhantasmaError → Put
fail_put e w = err e

module _ {ℓ} {A : Type ℓ} where
  unfoldable pub pure : A → Get A
  pure a r = ok (a, r)

  unfoldable pub fail : PhantasmaError → Get A
  fail e r = err e

module _ {ℓ κ} {A : Type ℓ} {B : Type κ} where
  infixl 5 ◌>>=◌
  -- Sequencing of reads, with the early return of `?`.
  unfoldable pub ◌>>=◌ : Get A → (A → Get B) → Get B
  (p >>= f) r = elim (p r) [ ok (a, r') ↦ f a r' | err e ↦ err e ]

unfoldable pub new_writer : Writer
new_writer = record { buffer = [] }

unfoldable pub new_reader : Bytes → Reader
new_reader bytes = record { data_bytes = bytes; offset = 0 }

unfoldable pub write : Bytes → Put
write bytes w = ok (record { buffer = w.buffer ++ bytes })

unfoldable pub remaining : Reader → ℕ
remaining r = length r.data_bytes - r.offset

unfoldable pub assert_eof : Reader → Result (Unit {0})
unfolding remaining
assert_eof r = if remaining r == 0 then ok tt else err (serialization "unexpected trailing bytes")

unfoldable pub read : ℕ → Get Bytes
unfolding remaining
read count r =
    if ltb (remaining r) count
    then err (serialization "end of stream reached")
    else ok (take count (drop r.offset r.data_bytes), record r { offset = r.offset + count })

-- The value of `to_le_bytes` at a width, and of `from_le_bytes`.
unfoldable pub le_bytes : ℕ → ℕ → Bytes
le_bytes zero n = []
le_bytes (suc width) n = (n % 256) ∷ le_bytes width (n / 256)

unfoldable pub from_le : Bytes → ℕ
from_le [] = 0
from_le (b ∷ bytes) = b + 256 * from_le bytes

-- `(0..count).map(...).collect()` over a fallible read.
unfoldable pub read_many {ℓ} : {A : Type ℓ} → ℕ → Get A → Get (List A)
read_many zero p = pure []
read_many (suc count) p = p >>= λ x. read_many count p >>= λ xs. pure (x ∷ xs)

-- A loop that writes each item of a slice.
unfoldable pub write_many {ℓ} : {A : Type ℓ} → (A → Put) → List A → Put
write_many put [] = skip
write_many put (x ∷ xs) = put x ▹ write_many put xs
