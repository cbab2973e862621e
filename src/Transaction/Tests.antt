-- ===== src/Transaction/Tests.antt =====
-- The theorems on src/transaction.rs at a transaction with a signature.
use phantasma_sdk_rs.Prelude.{◌≡◌, ◌≤◌, refl, arith, [], ◌∷◌, replicate, true, some}
use phantasma_sdk_rs.Error.{ok}
use phantasma_sdk_rs.Stream.{◌▹◌, write, skip, le_bytes, new_writer}
use phantasma_sdk_rs.Binary.{
  written_whole, write_string, write_var_bytes, write_u32_le, write_var_uint, write_u8,
}
use phantasma_sdk_rs.Text.{is_utf8}
use phantasma_sdk_rs.Text.Ascii.{ascii}
use phantasma_sdk_rs.Crypto.{difficulty}
use phantasma_sdk_rs.Crypto.Model.{model}
use phantasma_sdk_rs.Transaction.{
  Transaction, to_bytes, from_bytes, hash, sign_transaction, is_signed_by, mine,
}
use phantasma_sdk_rs.Transaction.RoundTrip.{Fits, from_bytes-to_bytes}
use phantasma_sdk_rs.Transaction.Laws.{is_signed_by-sign_transaction, with_nonce, mine-ends}

abbrev transfer : Transaction
transfer = record {
  nexus_name = ascii "mainnet";
  chain_name = ascii "main";
  script = 11 ∷ [];
  expiration = 1000;
  payload = 1 ∷ [];
  signatures = replicate 64 9 ∷ [];
}

mainnet_utf8 : is_utf8 (ascii "mainnet") ≡ true
unfolding is_utf8
mainnet_utf8 = refl

main_utf8 : is_utf8 (ascii "main") ≡ true
unfolding is_utf8
main_utf8 = refl

transfer-Fits : Fits transfer
transfer-Fits = record {
  nexus_short = omega arith;
  nexus_utf8 = mainnet_utf8;
  chain_short = omega arith;
  chain_utf8 = main_utf8;
  script_short = omega arith;
  expiration_small = omega arith;
  payload_short = omega arith;
  signatures_sized = (refl, tt);
  signatures_few = omega arith;
}

from_bytes-to_bytes_example : from_bytes (to_bytes transfer true) ≡ ok transfer
from_bytes-to_bytes_example = from_bytes-to_bytes transfer transfer-Fits

is_signed_by-sign_transaction_example :
    (is_signed_by (replicate 32 7) (sign_transaction (replicate 32 7) transfer).1 ≡ ok true)
    × (hash (sign_transaction (replicate 32 7) transfer).1 ≡ hash transfer)
is_signed_by-sign_transaction_example = is_signed_by-sign_transaction (replicate 32 7) transfer

third_difficulty : difficulty (hash (with_nonce transfer 3)) ≡ 3
unfolding difficulty hash to_bytes written_whole write_string write_var_bytes write_u32_le
    write_var_uint write_u8 ◌▹◌ write skip le_bytes new_writer
third_difficulty = refl

third_serves : 1 ≤ difficulty (hash (with_nonce transfer 3))
third_serves = omega (arith, third_difficulty)

mine-ends_example :
    (mined : Transaction) × (mine 4 1 transfer ≡ some mined)
    × (1 ≤ difficulty (hash mined))
    × (record mined { payload = transfer.payload } ≡ transfer)
mine-ends_example = mine-ends transfer 1 3 (omega arith) (omega arith) third_serves
