-- ===== src/Fees/Operation.antt =====
-- `operation_model` of src/fees.rs: what each kind of operation costs in work, policy fee, result
-- bytes and storage rows.
pub mod Laws
use phantasma_sdk_rs.Prelude.{
  ℕ, zero, suc, ◌+◌, Bool, true, false, not, ◌&&◌, ◌||◌, List, [], ◌∷◌, Option, some, none, ltb,
  ◌==◌, if◌then◌else◌, length, replicate,
}
use phantasma_sdk_rs.Error.{Result, ok, err, builder, ◌>>=◌}
use phantasma_sdk_rs.Carbon.GasConfig.{GasConfig, has_gas_model_v2}
use phantasma_sdk_rs.Fees.Words.{
  sat_add64, sat_mul64, add32, mul32, shr, quantum, storage_quanta_for,
  phantasma_canonical_rom_bytes, symbol_shift,
}
use phantasma_sdk_rs.Fees.Params.{
  NativeFeeKind, NativeFeeParams, InfusedAsset, OperationModel, no_operation, or_default,
}

-- Rows of the gas token and of the data token are free.
unfoldable pub is_free_token : Option ℕ → GasConfig → Bool
is_free_token none config = false
is_free_token (some id) config = id == config.gas_token_id || id == config.data_token_id

unfoldable pub distinct_series : NativeFeeParams → ℕ → Result ℕ
distinct_series params count =
    let distinct = or_default params.distinct_series_count 1 in
    if ltb distinct 1 || ltb count distinct
    then err (builder "estimate_native_fee: distinct_series_count must be between 1 and count")
    else ok distinct

unfoldable pub per_instance : List ℕ → ℕ → Result (List ℕ)
per_instance [] count = ok (replicate count 0)
per_instance (v ∷ []) count = ok (replicate count v)
per_instance (v ∷ u ∷ values) count =
    if length (v ∷ u ∷ values) == count
    then ok (v ∷ u ∷ values)
    else err (builder "estimate_native_fee: must have one entry per instance")

-- One round of the loop of `returned_assets`.
unfoldable pub return_asset : OperationModel → InfusedAsset → GasConfig → Result OperationModel
unfolding is_free_token
return_asset model asset config =
    let free_rows = is_free_token asset.token_id config in
    let balance_row = quantum (not asset.burner_holds_token && not free_rows) in
    let instances = or_default asset.instance_count 1 in
    if asset.non_fungible
    then (if instances == 0
        then err (
            builder
              "estimate_native_fee: instance_count of a returned NFT token must be a positive integer")
        else ok (record model {
          work_units = sat_add64 model.work_units (
              sat_add64 (sat_mul64 config.gas_fee_query 2)
                (sat_mul64 config.gas_fee_transfer instances));
          new_quanta = add32 model.new_quanta (add32 balance_row instances);
          deleted_quanta = add32 model.deleted_quanta (add32 1 instances);
        }))
    else ok (record model {
      work_units =
          sat_add64 model.work_units (sat_add64 config.gas_fee_transfer config.gas_fee_query);
      new_quanta = add32 model.new_quanta balance_row;
      deleted_quanta = add32 model.deleted_quanta (quantum (not free_rows));
    })

unfoldable pub return_assets :
    OperationModel → List InfusedAsset → GasConfig → Result OperationModel
unfolding return_asset
return_assets model [] config = ok model
return_assets model (asset ∷ assets) config = do
  model' ← return_asset model asset config
  return_assets model' assets config

unfoldable pub returned_assets : NativeFeeParams → GasConfig → Result OperationModel
unfolding return_assets
returned_assets params config = return_assets no_operation (or_default params.infusions []) config

abbrev nft_instance_row_overhead : ℕ
nft_instance_row_overhead = 17 + 32 + 8 + 1 + 4

-- The loop over the instances of a mint or a burn with the ROM as submitted; the two lists have one
-- entry for each instance.
unfoldable pub instance_rows : Bool → ℕ → List ℕ → List ℕ → ℕ
instance_rows meta quanta (rom ∷ roms) (ram ∷ rams) =
    let with_rom =
      add32 quanta (add32 (storage_quanta_for (add32 nft_instance_row_overhead rom)) 2) in
    let with_ram =
      if ltb 0 ram then add32 with_rom (storage_quanta_for (add32 17 ram)) else with_rom in
    instance_rows meta (if meta then add32 with_ram 1 else with_ram) roms rams
instance_rows meta quanta _ _ = quanta

-- The same for a deterministic mint, which stores the canonical ROM and always a meta id.
unfoldable pub phantasma_rows : ℕ → List ℕ → List ℕ → ℕ
phantasma_rows quanta (rom ∷ roms) (ram ∷ rams) =
    let stored = add32 nft_instance_row_overhead (phantasma_canonical_rom_bytes rom) in
    let with_rom = add32 quanta (add32 (storage_quanta_for stored) 3) in
    phantasma_rows
      (if ltb 0 ram then add32 with_rom (storage_quanta_for (add32 17 ram)) else with_rom) roms rams
phantasma_rows quanta _ _ = quanta

module _ (config : GasConfig) (params : NativeFeeParams) (count : ℕ) where
  unfoldable pub recipient_row : ℕ
  recipient_row =
      quantum (not params.recipient_holds_token && not (is_free_token params.token_id config))

  unfoldable pub burnt_row : ℕ
  burnt_row = quantum (not params.token_burned_before && not (is_free_token params.token_id config))

  unfoldable pub supply_row : ℕ
  supply_row = quantum (not params.supply_row_exists && not (is_free_token params.token_id config))

  unfoldable pub balance_result_bytes : ℕ
  balance_result_bytes = if or_default params.big_fungible true then 33 else 9

  unfoldable pub infusion_query : ℕ
  infusion_query = if params.to_is_nft_address then config.gas_fee_query else 0

  unfoldable pub model_transfer_fungible : OperationModel
  model_transfer_fungible = record no_operation {
    work_units = sat_add64 config.gas_fee_transfer infusion_query;
    new_quanta = recipient_row;
  }

  unfoldable pub model_transfer_non_fungible : OperationModel
  model_transfer_non_fungible = record no_operation {
    work_units = sat_add64 (sat_mul64 config.gas_fee_transfer count) infusion_query;
    new_quanta = add32 count recipient_row;
    deleted_quanta = count;
  }

  unfoldable pub model_mint_fungible : OperationModel
  model_mint_fungible = record no_operation {
    work_units = sat_add64 config.gas_fee_transfer infusion_query;
    result_bytes = balance_result_bytes;
    new_quanta = add32 recipient_row supply_row;
  }

  unfoldable pub model_burn_fungible : OperationModel
  model_burn_fungible = record no_operation {
    work_units = config.gas_fee_transfer;
    result_bytes = balance_result_bytes;
    new_quanta = add32 burnt_row supply_row;
  }

  unfoldable pub model_mint_non_fungible : Result OperationModel
  model_mint_non_fungible = do
    roms ← per_instance params.rom_bytes count
    rams ← per_instance params.ram_bytes count
    ok (record no_operation {
      work_units = sat_add64 (sat_mul64 config.gas_fee_transfer count) infusion_query;
      result_bytes = add32 4 (mul32 8 count);
      new_quanta =
          instance_rows (or_default params.rom_has_meta_id true) (add32 recipient_row supply_row)
            roms rams;
    })

  unfoldable pub series_supply_queries : Bool → Result ℕ
  series_supply_queries duplicated = if duplicated then distinct_series params count else ok 0

  unfoldable pub model_mint_phantasma_non_fungible : Result OperationModel
  model_mint_phantasma_non_fungible = do
    roms ← per_instance params.rom_bytes count
    rams ← per_instance params.ram_bytes count
    supplies ← series_supply_queries (or_default params.duplicated_series true)
    ok (record no_operation {
      work_units =
          sat_add64
            (sat_add64
              (sat_mul64
                (sat_add64 config.gas_fee_transfer (
                  sat_mul64 config.gas_fee_query
                    (if or_default params.duplicated_series true then 3 else 2)))
                count)
              (sat_mul64 config.gas_fee_query supplies))
            infusion_query;
      result_bytes = add32 4 (mul32 40 count);
      new_quanta = phantasma_rows (add32 recipient_row supply_row) roms rams;
    })

  unfoldable pub model_burn_non_fungible : Result OperationModel
  model_burn_non_fungible = do
    roms ← per_instance params.rom_bytes count
    rams ← per_instance params.ram_bytes count
    returned ← returned_assets params config
    ok (record no_operation {
      work_units =
          sat_add64
            (sat_mul64 (sat_add64 config.gas_fee_transfer (sat_mul64 config.gas_fee_query 2)) count)
            returned.work_units;
      new_quanta = add32 (add32 burnt_row supply_row) returned.new_quanta;
      deleted_quanta =
          add32 (instance_rows (or_default params.rom_has_meta_id true) 0 roms rams)
            returned.deleted_quanta;
    })

  unfoldable pub create_token_rows : ℕ
  create_token_rows =
      add32
        (add32
          (add32
            (add32
              (add32 (quantum (ltb 0 params.symbol_length))
                (storage_quanta_for (add32 9 params.token_info_bytes)))
              1)
            (quantum params.non_fungible))
          (quantum params.has_pre_burn))
        (quantum params.has_inflation_schedule)

  unfoldable pub model_create_token : Result OperationModel
  model_create_token = do
    shift ← symbol_shift params.symbol_length config.max_token_symbol_length
    let v2 = has_gas_model_v2 config
    let base = if v2 then config.policy_fee_create_token_base else config.gas_fee_create_token_base
    let symbol_price =
        if v2 then config.policy_fee_create_token_symbol else config.gas_fee_create_token_symbol
    let symbol = if ltb 0 params.symbol_length then shr symbol_price shift else 0
    let queries =
        sat_mul64 config.gas_fee_query
          (quantum params.has_staking_organisation + quantum params.has_staking_reward_token)
    ok (record {
      work_units = if v2 then queries else sat_add64 (sat_add64 base symbol) queries;
      policy_fee = if v2 then sat_add64 base symbol else 0;
      result_bytes = 8;
      new_quanta = create_token_rows;
      deleted_quanta = 0;
    })

  unfoldable pub model_create_token_series : OperationModel
  model_create_token_series = record {
    work_units = if has_gas_model_v2 config then 0 else config.gas_fee_create_token_series;
    policy_fee = if has_gas_model_v2 config then config.policy_fee_create_token_series else 0;
    result_bytes = 4;
    new_quanta =
        add32 (add32 (storage_quanta_for (add32 13 params.series_info_bytes)) 1)
          (quantum (or_default params.series_has_meta_id true));
    deleted_quanta = 0;
  }

  unfoldable pub model_register_name : Result OperationModel
  model_register_name =
      if params.name_length == 0
      then err (builder "estimate_native_fee: name_length is required for RegisterName")
      else do
        shift ← symbol_shift params.name_length config.max_name_length
        ok (record no_operation {
          work_units =
              if has_gas_model_v2 config then 0 else shr config.gas_fee_register_name shift;
          policy_fee =
              if has_gas_model_v2 config then shr config.policy_fee_register_name shift else 0;
        })

  unfoldable pub model_script : OperationModel
  model_script = record no_operation {
    work_units = or_default params.script_units_allowance 5000;
    result_bytes = or_default params.script_event_bytes 512;
    new_quanta = or_default params.script_storage_quanta 4;
  }

unfoldable pub operation_model :
    NativeFeeKind → GasConfig → NativeFeeParams → ℕ → Result OperationModel
operation_model NativeFeeKind.transfer_fungible c p n = ok (model_transfer_fungible c p n)
operation_model NativeFeeKind.transfer_non_fungible c p n = ok (model_transfer_non_fungible c p n)
operation_model NativeFeeKind.mint_fungible c p n = ok (model_mint_fungible c p n)
operation_model NativeFeeKind.burn_fungible c p n = ok (model_burn_fungible c p n)
operation_model NativeFeeKind.mint_non_fungible c p n = model_mint_non_fungible c p n
operation_model NativeFeeKind.mint_phantasma_non_fungible c p n =
    model_mint_phantasma_non_fungible c p n
operation_model NativeFeeKind.burn_non_fungible c p n = model_burn_non_fungible c p n
operation_model NativeFeeKind.create_token c p n = model_create_token c p n
operation_model NativeFeeKind.create_token_series c p n = ok (model_create_token_series c p n)
operation_model NativeFeeKind.register_name c p n = model_register_name c p n
operation_model NativeFeeKind.script c p n = ok (model_script c p n)
