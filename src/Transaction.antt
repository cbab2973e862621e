-- ===== src/Transaction.antt =====
-- src/transaction.rs: the VM transaction, its bytes, its signatures and the search for a nonce.
pub mod RoundTrip
pub mod Laws
mod Tests
use phantasma_sdk_rs.Prelude.{
  ℕ, zero, suc, ◌+◌, ◌%◌, ◌^◌, List, [], ◌∷◌, ◌++◌, Bool, true, false, not, ◌||◌, ltb, ◌==◌,
  if◌then◌else◌, Option, none, some, length,
}
use phantasma_sdk_rs.Error.{Result, ok, err, serialization}
use phantasma_sdk_rs.Stream.{
  Bytes, Put, Get, ◌▹◌, skip, pure, fail, ◌>>=◌, le_bytes, read_many, write_many,
}
use phantasma_sdk_rs.Text.Ascii.{ascii, eq_ignore_ascii_case}
use phantasma_sdk_rs.Binary.{
  max_array_size, write_u8, write_u32_le, write_var_uint, write_var_bytes, write_string, read_u8,
  read_u32_le, read_var_uint, read_var_bytes, read_string, read_whole, written_whole,
}
use phantasma_sdk_rs.Crypto.{
  CryptoLibrary, Address, ed25519_kind, signature_length, sized, difficulty, verify, address_of,
}

pub record Transaction : Type 0 where
  pub nexus_name : Bytes
  pub chain_name : Bytes
  pub script : Bytes
  pub expiration : ℕ
  pub payload : Bytes
  pub signatures : List Bytes

unfoldable pub write_signature : Bytes → Put
write_signature signature = write_u8 ed25519_kind ▹ write_var_bytes signature

unfoldable pub write_signatures : List Bytes → Put
unfolding write_signature
write_signatures signatures =
    write_var_uint (length signatures) ▹ write_many write_signature signatures

unfoldable pub write_transaction : Transaction → Bool → Put
unfolding write_signatures
write_transaction t with_signatures =
    write_string t.nexus_name
    ▹ write_string t.chain_name
    ▹ write_var_bytes t.script
    ▹ write_u32_le t.expiration
    ▹ write_var_bytes t.payload
    ▹ (if with_signatures then write_signatures t.signatures else skip)

-- The writer's bytes; none of its methods fails.
unfoldable pub to_bytes : Transaction → Bool → Bytes
unfolding write_transaction
to_bytes t with_signatures = elim (written_whole (write_transaction t with_signatures)) [
  | ok bytes ↦ bytes
  | err e ↦ []
]

unfoldable pub lift_result : Result Bytes → Get Bytes
lift_result (ok value) r = ok (value, r)
lift_result (err e) r = err e

unfoldable pub read_signature : Get Bytes
unfolding sized lift_result
read_signature = read_u8 >>= λ kind.
    if not (kind == ed25519_kind)
    then fail (serialization "unsupported signature kind")
    else (read_var_bytes max_array_size >>= λ raw. lift_result (sized signature_length raw))

unfoldable pub read_transaction : Get Transaction
unfolding read_signature
read_transaction = read_string >>= λ nexus_name. read_string >>= λ chain_name.
    read_var_bytes max_array_size >>= λ script. read_u32_le >>= λ expiration.
    read_var_bytes max_array_size >>= λ payload. read_var_uint >>= λ count.
    read_many count read_signature >>= λ signatures. pure (record {
      nexus_name = nexus_name;
      chain_name = chain_name;
      script = script;
      expiration = expiration;
      payload = payload;
      signatures = signatures;
    })

unfoldable pub from_bytes : Bytes → Result Transaction
unfolding read_transaction
from_bytes data_bytes = read_whole read_transaction data_bytes

unfoldable pub tx_state_is_success : Bytes → Bool
tx_state_is_success state = eq_ignore_ascii_case state (ascii "HALT")

unfoldable pub tx_state_is_fault : Bytes → Bool
tx_state_is_fault state =
    eq_ignore_ascii_case state (ascii "FAULT") || eq_ignore_ascii_case state (ascii "BREAK")

module _ ⦃library : CryptoLibrary⦄ where
  unfoldable pub hash : Transaction → Bytes
  unfolding to_bytes
  hash t = library.sha256 (to_bytes t false)

  -- The signature, and the transaction that has it at the end.
  unfoldable pub sign_transaction : Bytes → Transaction → Bytes × Transaction
  unfolding to_bytes phantasma_sdk_rs.Crypto.sign
  sign_transaction private_key t =
      let signature = phantasma_sdk_rs.Crypto.sign private_key (to_bytes t false) in
      (signature, record t { signatures = t.signatures ++ signature ∷ [] })

  unfoldable pub any_verifies : Bytes → Address → List Bytes → Bool
  unfolding verify
  any_verifies message address [] = false
  any_verifies message address (signature ∷ signatures) =
      let rest = any_verifies message address signatures in
      verify signature message (address ∷ []) || rest

  unfoldable pub is_signed_by : Bytes → Transaction → Result Bool
  unfolding any_verifies address_of
  is_signed_by private_key t = elim (address_of private_key) [
    | ok address ↦ ok (any_verifies (to_bytes t false) address t.signatures)
    | err e ↦ err e
  ]

  -- The search goes on for ever where no nonce serves: the fuel bounds the turns, and `none` is a
  -- search that has not ended.
  unfoldable pub mine_from : ℕ → ℕ → ℕ → Transaction → Option Transaction
  unfolding hash
  mine_from zero nonce wanted t = none
  mine_from (suc fuel) nonce wanted t =
      let next = (nonce + 1) % 2 ^ 32 in
      let rest = mine_from fuel next wanted (record t { payload = le_bytes 4 next }) in
      if ltb (difficulty (hash t)) wanted then rest else some t

  unfoldable pub mine : ℕ → ℕ → Transaction → Option Transaction
  unfolding mine_from
  mine fuel wanted t = if wanted == 0 then some t else mine_from fuel 0 wanted t
