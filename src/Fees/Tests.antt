-- ===== src/Fees/Tests.antt =====
-- The theorems on the fee calculator at concrete prices and operations.
use phantasma_sdk_rs.Prelude.{
  ℕ, ◌+◌, ◌*◌, ◌^◌, ◌≤◌, ◌<◌, ◌≡◌, refl, arith, min, false, List, [], ◌∷◌, ◌++◌, none, replicate,
  pos,
}
use phantasma_sdk_rs.Error.{ok}
use phantasma_sdk_rs.Stream.{Bytes}
use phantasma_sdk_rs.BigInt.Model.{model}
use phantasma_sdk_rs.Carbon.Message.{TxType, TxPayload, TxMsg, tx_msg_carbon}
use phantasma_sdk_rs.Carbon.Envelope.{SignedTxMsg, signed_carbon, envelope_bytes}
use phantasma_sdk_rs.Carbon.GasConfig.{GasConfig, has_gas_model_v2}
use phantasma_sdk_rs.Fees.Words.{
  sat_add64, sat_mul64, sat_add32, sat_sub, quantum, storage_quanta_for,
  phantasma_canonical_rom_bytes, mul_shift, max_u64, max_u32,
}
use phantasma_sdk_rs.Fees.Words.Bounds.{storage_quanta_bounds, canonical_rom_wraps}
use phantasma_sdk_rs.Fees.Params.{
  NativeFeeKind, NativeFeeParams, NativeFeePart, NativeFeeTransactionParams, NativeFeeEstimate,
  OperationModel, no_operation,
}
use phantasma_sdk_rs.Fees.Operation.{
  operation_model, model_transfer_fungible, recipient_row, infusion_query, is_free_token,
}
use phantasma_sdk_rs.Fees.Settle.{
  estimate_native_fee, estimate_native_fee_batch, part_models, part_model, settle, total_from,
  add_model, settle_total, estimate_of, bill_v2, net_quanta,
}
use phantasma_sdk_rs.Fees.Settle.Coverage.{
  IsCovered, estimate_native_fee_batch-IsCovered, settle_total_v2,
}
use phantasma_sdk_rs.Fees.Settle.Totals.{sum_of, total_lem, settle-perm}
use phantasma_sdk_rs.Fees.Settle.Monotone.{CostsLess, settle_total-CostsLess}
use phantasma_sdk_rs.Fees.Settle.Facts.{transfer, estimate_native_fee-settled_facts, settled_facts}
use mathlib.Core.List.Perm

abbrev prices : GasConfig
prices = record {
  version = 1;
  max_name_length = 32;
  max_token_symbol_length = 10;
  fee_shift = 0;
  max_structure_size = 0;
  fee_multiplier = 10000;
  gas_token_id = 1;
  data_token_id = 2;
  minimum_gas_offer = 5000;
  data_escrow_per_row = 1000;
  gas_fee_transfer = 10;
  gas_fee_query = 2;
  gas_fee_create_token_base = 0;
  gas_fee_create_token_symbol = 0;
  gas_fee_create_token_series = 0;
  gas_fee_per_byte = 0;
  gas_fee_register_name = 0;
  gas_burn_ratio_mul = 0;
  gas_burn_ratio_shift = 0;
  minimum_gas_bill = 300;
  gas_producer_ratio_mul = 0;
  gas_producer_ratio_shift = 0;
  gas_dapp_ratio_mul = 0;
  gas_dapp_ratio_shift = 0;
  policy_fee_create_token_base = 0;
  policy_fee_create_token_symbol = 0;
  policy_fee_create_token_series = 0;
  policy_fee_register_name = 100000;
  legacy_data_escrow_per_row = 0;
}

abbrev transfer_params : NativeFeeParams
transfer_params = record {
  envelope_bytes = 200;
  count = none;
  token_id = none;
  recipient_holds_token = false;
  to_is_nft_address = false;
  big_fungible = none;
  token_burned_before = false;
  supply_row_exists = false;
  infusions = none;
  symbol_length = 0;
  token_info_bytes = 0;
  non_fungible = false;
  has_pre_burn = false;
  has_inflation_schedule = false;
  has_staking_organisation = false;
  has_staking_reward_token = false;
  series_info_bytes = 0;
  series_has_meta_id = none;
  name_length = 0;
  rom_bytes = [];
  ram_bytes = [];
  rom_has_meta_id = none;
  duplicated_series = none;
  distinct_series_count = none;
  payload_bytes = 0;
  script_units_allowance = none;
  script_event_bytes = none;
  script_storage_quanta = none;
}

abbrev transaction : NativeFeeTransactionParams
transaction = record { envelope_bytes = 200; payload_bytes = 0 }

abbrev small : OperationModel
small = record {
  work_units = 10;
  policy_fee = 0;
  result_bytes = 0;
  new_quanta = 0;
  deleted_quanta = 0;
}

abbrev large : OperationModel
large = record {
  work_units = 12;
  policy_fee = 1;
  result_bytes = 9;
  new_quanta = 2;
  deleted_quanta = 0;
}

abbrev parts : List NativeFeePart
parts = record { kind = NativeFeeKind.transfer_fungible; params = transfer_params } ∷ []

abbrev answer : NativeFeeEstimate
answer = record {
  max_gas = 50350000;
  max_data = 1000;
  expected_gas_bill = 50350000;
  new_storage_quanta = 1;
  deleted_storage_quanta = 0;
}

run_parts : estimate_native_fee_batch parts prices transaction ≡ ok answer
unfolding estimate_native_fee_batch part_models part_model operation_model model_transfer_fungible
    recipient_row infusion_query is_free_token quantum sat_add64 sat_mul64 sat_add32 settle
    total_from add_model settle_total estimate_of bill_v2 net_quanta sat_sub mul_shift
    has_gas_model_v2
run_parts = refl

estimate_native_fee_batch-IsCovered_example : IsCovered prices answer
estimate_native_fee_batch-IsCovered_example =
    estimate_native_fee_batch-IsCovered parts prices transaction answer run_parts

abbrev held_answer : NativeFeeEstimate
held_answer = record answer {
  max_gas = 50100000;
  max_data = 0;
  expected_gas_bill = 50100000;
  new_storage_quanta = 0;
}

one_answer : estimate_native_fee NativeFeeKind.transfer_fungible prices transfer_params ≡ ok answer
unfolding estimate_native_fee
one_answer = run_parts

held :
    estimate_native_fee NativeFeeKind.transfer_fungible prices (settled_facts transfer_params)
    ≡ ok held_answer
unfolding estimate_native_fee settled_facts estimate_native_fee_batch part_models part_model
    operation_model model_transfer_fungible recipient_row infusion_query is_free_token quantum
    sat_add64 sat_mul64 sat_add32 settle total_from add_model settle_total estimate_of bill_v2
    net_quanta sat_sub mul_shift has_gas_model_v2
held = refl

estimate_native_fee-settled_facts_example : CostsLess held_answer answer
estimate_native_fee-settled_facts_example =
    estimate_native_fee-settled_facts transfer prices transfer_params held_answer answer held
      one_answer

settle_total-CostsLess_example :
    CostsLess
      (estimate_of small prices (bill_v2 small prices transaction))
      (estimate_of large prices (bill_v2 large prices transaction))
settle_total-CostsLess_example =
    settle_total-CostsLess small large prices transaction _ _ (omega arith)
      (settle_total_v2 small prices transaction (unfold has_gas_model_v2 in refl) refl)
      (settle_total_v2 large prices transaction (unfold has_gas_model_v2 in refl) refl)

settle-perm_example :
    settle (small ∷ large ∷ []) prices transaction ≡ settle (large ∷ small ∷ []) prices transaction
settle-perm_example =
    settle-perm (small ∷ large ∷ []) (large ∷ small ∷ []) prices transaction
      (Perm.swap large small [])

total_lem_example : total_from no_operation (small ∷ large ∷ []) ≡ record {
  work_units = min (sum_of (λ m. m.work_units) (small ∷ large ∷ [])) max_u64;
  policy_fee = min (sum_of (λ m. m.policy_fee) (small ∷ large ∷ [])) max_u64;
  result_bytes = min (sum_of (λ m. m.result_bytes) (small ∷ large ∷ [])) max_u32;
  new_quanta = min (sum_of (λ m. m.new_quanta) (small ∷ large ∷ [])) max_u32;
  deleted_quanta = min (sum_of (λ m. m.deleted_quanta) (small ∷ large ∷ [])) max_u32;
}
total_lem_example = total_lem (small ∷ large ∷ [])

storage_quanta_bounds_example :
    (1025 ≤ 1024 * storage_quanta_for 1025) × (1024 * storage_quanta_for 1025 < 1025 + 1024)
storage_quanta_bounds_example = storage_quanta_bounds 1025

canonical_rom_wraps_example :
    phantasma_canonical_rom_bytes 3000000000 + 2 ^ 32 ≤ 2 * 3000000000 + 36
canonical_rom_wraps_example = canonical_rom_wraps 3000000000 (omega arith) (omega arith)

abbrev account : Bytes
account = replicate 32 7

abbrev message : TxMsg
message = record {
  tx_type = TxType.transfer_fungible;
  expiry = pos 1;
  max_gas = 2;
  max_data = 3;
  gas_from = account;
  payload = record { text = [] };
  msg = TxPayload.transfer_fungible (record { to = replicate 32 9; token_id = 4; amount = 5 });
}

abbrev signed : SignedTxMsg
signed = record {
  msg = message;
  witnesses = record { address = account; signature = replicate 64 5 } ∷ [];
}

abbrev word : ℕ → Bytes
word n = n ∷ replicate 7 0

abbrev message_bytes : Bytes
message_bytes =
    3 ∷ word 1 ++ (word 2 ++ (word 3 ++ (account ++ (0 ∷ replicate 32 9 ++ (word 4 ++ word 5)))))
