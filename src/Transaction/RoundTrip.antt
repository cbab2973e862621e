-- ===== src/Transaction/RoundTrip.antt =====
-- The bytes of a transaction of src/transaction.rs are read back.
use phantasma_sdk_rs.Prelude.{
  ◌^◌, ◌≤◌, ◌<◌, ◌≡◌, refl, ap, ◌∙◌, arith, [], true, length, All, All-map,
}
use phantasma_sdk_rs.Error.{ok, err}
use phantasma_sdk_rs.Stream.{Bytes, pure}
use phantasma_sdk_rs.Stream.Codes.{Codes, Codes-bind, Codes-end, Codes-weaken, Codes-le, Codes-many}
use phantasma_sdk_rs.Text.{is_utf8}
use phantasma_sdk_rs.Binary.{max_array_size, read_whole, read_u32_le, write_u32_le}
use phantasma_sdk_rs.Binary.Laws.{
  Codes-u8, Codes-var_uint, Codes-var_bytes, Codes-string, read_whole-written_whole,
}
use phantasma_sdk_rs.Crypto.{signature_length, sized, ed25519_kind}
use phantasma_sdk_rs.Crypto.Laws.{sized_ok}
use phantasma_sdk_rs.Transaction.{
  Transaction, write_signature, write_signatures, write_transaction, to_bytes, lift_result,
  read_signature, read_transaction, from_bytes,
}

-- What a transaction has to be for its readers: texts of UTF-8, lengths within the reader's limit, an
-- expiration of 32 bits, signatures of 64 bytes and fewer than 2 ^ 64 of them.
pub record Fits (t : Transaction) : Type 0 where
  pub nexus_short : length t.nexus_name ≤ max_array_size
  pub nexus_utf8 : is_utf8 t.nexus_name ≡ true
  pub chain_short : length t.chain_name ≤ max_array_size
  pub chain_utf8 : is_utf8 t.chain_name ≡ true
  pub script_short : length t.script ≤ max_array_size
  pub expiration_small : t.expiration < 2 ^ 32
  pub payload_short : length t.payload ≤ max_array_size
  pub signatures_sized : All (λ signature. length signature ≡ signature_length) t.signatures
  pub signatures_few : length t.signatures < 2 ^ 64

Codes-signature :
    (signature : Bytes)
    → length signature ≡ signature_length
    → Codes 1 (write_signature signature) read_signature signature
unfolding write_signature read_signature lift_result pure
Codes-signature signature size = Codes-weaken 1 (omega arith) (
    Codes-bind _ (Codes-u8 ed25519_kind) (
      Codes-end (λ raw. lift_result (sized signature_length raw))
        (Codes-var_bytes max_array_size signature (omega (arith, size)) (omega arith))
        (ap lift_result (sized_ok signature_length signature size))))

Codes-transaction :
    (t : Transaction) → Fits t → Codes 1 (write_transaction t true) read_transaction t
unfolding write_transaction read_transaction write_signatures write_u32_le read_u32_le
Codes-transaction t f = Codes-weaken 1 (omega arith) (
    Codes-bind _ (Codes-string t.nexus_name f.nexus_short f.nexus_utf8) (
      Codes-bind _ (Codes-string t.chain_name f.chain_short f.chain_utf8) (
        Codes-bind _ (Codes-var_bytes max_array_size t.script f.script_short (omega arith)) (
          Codes-bind _ (Codes-le (λ k. k) 4 t.expiration (omega (arith, f.expiration_small))) (
            Codes-bind _ (Codes-var_bytes max_array_size t.payload f.payload_short (omega arith)) (
              Codes-bind _ (Codes-var_uint (length t.signatures) f.signatures_few) (
                Codes-end _
                  (Codes-many 1 write_signature read_signature t.signatures
                    (All-map Codes-signature t.signatures f.signatures_sized))
                  refl)))))))

-- A transaction that fits the format is read from its bytes with their signatures, and nothing is
-- left over.
pub from_bytes-to_bytes : (t : Transaction) → Fits t → from_bytes (to_bytes t true) ≡ ok t
unfolding from_bytes to_bytes
from_bytes-to_bytes t f =
    let (bytes, made, back) = read_whole-written_whole _ _ t (Codes-transaction t f) in
    ap (λ r. read_whole read_transaction (elim r [ ok whole ↦ whole | err e ↦ [] ])) made ∙ back
