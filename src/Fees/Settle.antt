-- ===== src/Fees/Settle.antt =====
-- `settle` and the two entry points of the calculator in src/fees.rs.
pub mod Totals
pub mod Monotone
pub mod Coverage
pub mod Facts
use phantasma_sdk_rs.Prelude.{
  ℕ, zero, ◌+◌, ◌*◌, max, Bool, List, [], ◌∷◌, Option, some, none, ◌==◌, if◌then◌else◌,
}
use phantasma_sdk_rs.Error.{Result, ok, err, builder, ◌>>=◌}
use phantasma_sdk_rs.Carbon.GasConfig.{GasConfig, has_gas_model_v2}
use phantasma_sdk_rs.Fees.Words.{sat_add64, sat_mul64, sat_add32, sat_sub, mul_shift}
use phantasma_sdk_rs.Fees.Params.{
  NativeFeeKind, NativeFeeParams, OperationModel, no_operation, NativeFeePart,
  NativeFeeTransactionParams, NativeFeeEstimate, or_default,
}
use phantasma_sdk_rs.Fees.Operation.{operation_model}

unfoldable pub add_model : OperationModel → OperationModel → OperationModel
add_model total model = record {
  work_units = sat_add64 total.work_units model.work_units;
  policy_fee = sat_add64 total.policy_fee model.policy_fee;
  result_bytes = sat_add32 total.result_bytes model.result_bytes;
  new_quanta = sat_add32 total.new_quanta model.new_quanta;
  deleted_quanta = sat_add32 total.deleted_quanta model.deleted_quanta;
}

-- `for model in models` over the running total.
unfoldable pub total_from : OperationModel → List OperationModel → OperationModel
unfolding add_model
total_from total [] = total
total_from total (model ∷ models) = total_from (add_model total model) models

unfoldable pub net_quanta : OperationModel → ℕ
unfolding sat_sub
net_quanta total = sat_sub total.new_quanta total.deleted_quanta

-- The expected bill and the offer under gas model v2.
unfoldable pub bill_v2 : OperationModel → GasConfig → NativeFeeTransactionParams → ℕ × ℕ
bill_v2 total config transaction =
    let block_data = transaction.envelope_bytes + net_quanta total + total.result_bytes in
    let byte_units = sat_mul64 block_data 25 in
    let bill =
      sat_add64
        (mul_shift (sat_add64 total.work_units byte_units) config.fee_multiplier config.fee_shift)
        total.policy_fee in
    let expected = max bill config.minimum_gas_bill in
    (expected, max expected config.minimum_gas_offer)

-- The same under gas model v1.
unfoldable pub bill_v1 : OperationModel → GasConfig → NativeFeeTransactionParams → ℕ × ℕ
bill_v1 total config transaction =
    let work = mul_shift total.work_units config.fee_multiplier config.fee_shift in
    let block_data = transaction.payload_bytes + total.result_bytes + net_quanta total in
    let expected = sat_add64 work (sat_mul64 block_data config.gas_fee_per_byte) in
    let byte_allowance = max block_data 1024 in
    let max_gas =
      sat_add64 (sat_add64 (sat_mul64 config.minimum_gas_offer 2) work)
        (sat_mul64 byte_allowance config.gas_fee_per_byte) in
    (expected, max_gas)

unfoldable pub estimate_of : OperationModel → GasConfig → ℕ × ℕ → NativeFeeEstimate
estimate_of total config (expected, max_gas) = record {
  max_gas = max_gas;
  max_data = sat_mul64 total.new_quanta config.data_escrow_per_row;
  expected_gas_bill = expected;
  new_storage_quanta = total.new_quanta;
  deleted_storage_quanta = total.deleted_quanta;
}

unfoldable pub settle_total :
    OperationModel → GasConfig → NativeFeeTransactionParams → Result NativeFeeEstimate
settle_total total config transaction =
    if has_gas_model_v2 config
    then (if transaction.envelope_bytes == 0
        then err (builder "estimate_native_fee: envelope_bytes is required under gas model v2")
        else ok (estimate_of total config (bill_v2 total config transaction)))
    else ok (estimate_of total config (bill_v1 total config transaction))

unfoldable pub settle :
    List OperationModel → GasConfig → NativeFeeTransactionParams → Result NativeFeeEstimate
settle models config transaction = settle_total (total_from no_operation models) config transaction

unfoldable pub part_model : NativeFeePart → GasConfig → Result OperationModel
part_model part config =
    let count = or_default part.params.count 1 in
    if count == 0
    then err (builder "estimate_native_fee: count must be a positive integer")
    else operation_model part.kind config part.params count

-- The loop over the parts, with the early return of `?`.
unfoldable pub part_models : List NativeFeePart → GasConfig → Result (List OperationModel)
part_models [] config = ok []
part_models (part ∷ parts) config = do
  model ← part_model part config
  models ← part_models parts config
  ok (model ∷ models)

unfoldable pub estimate_native_fee_batch :
    List NativeFeePart → GasConfig → NativeFeeTransactionParams → Result NativeFeeEstimate
estimate_native_fee_batch parts config transaction = do
  models ← part_models parts config
  settle models config transaction

unfoldable pub estimate_native_fee :
    NativeFeeKind → GasConfig → NativeFeeParams → Result NativeFeeEstimate
estimate_native_fee kind config params =
    estimate_native_fee_batch (record { kind = kind; params = params } ∷ []) config
      (record { envelope_bytes = params.envelope_bytes; payload_bytes = params.payload_bytes })
