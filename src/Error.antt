-- ===== src/Error.antt =====
-- src/error.rs: the error type of the crate and the results that carry it. A message is the fixed
-- text of the source's message; what `format!` would insert into it is left out. `panicked` is no
-- value of the source's enum: it stands for a panic, which ends the call like an error does.
use phantasma_sdk_rs.Prelude.{String, ◌≡◌, refl}

pub data PhantasmaError : Type 0 where
  encoding serialization crypto builder panicked : String → PhantasmaError

-- `std::result::Result` at that error type.
pub data Result {ℓ} (Value : Type ℓ) : Type ℓ where
  err : PhantasmaError → Result Value
  ok : Value → Result Value

pub ok-injective {ℓ} : {Value : Type ℓ} {v w : Value} → ok v ≡ ok w → v ≡ w
ok-injective same = cc

module _ {ℓ κ} {Before : Type ℓ} {After : Type κ} where
  infixl 5 ◌>>=◌
  -- The operator `?`: the first error is the answer of the whole chain.
  abbrev pub ◌>>=◌ : Result Before → (Before → Result After) → Result After
  err e >>= next = err e
  ok value >>= next = next value

  -- The two steps of a chain that answers a value.
  pub chain_steps :
      (next : Before → Result After) (first : Result Before) {answer : After}
      → (first >>= next) ≡ ok answer
      → (value : Before) × (next value ≡ ok answer) × (first ≡ ok value)
  chain_steps next (err e) whole = absurd cc
  chain_steps next (ok value) whole = (value, whole, refl)
