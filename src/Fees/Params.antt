-- ===== src/Fees/Params.antt =====
-- The inputs of the fee calculator in src/fees.rs, and what it answers.
use phantasma_sdk_rs.Prelude.{ℕ, List, Bool, true, false, Option, some, none}

-- `Option::unwrap_or`
abbrev pub or_default {ℓ} : {A : Type ℓ} → Option A → A → A
or_default none d = d
or_default (some a) d = a

pub data NativeFeeKind : Type 0 where
  transfer_fungible : NativeFeeKind
  transfer_non_fungible : NativeFeeKind
  mint_fungible : NativeFeeKind
  mint_non_fungible : NativeFeeKind
  mint_phantasma_non_fungible : NativeFeeKind
  burn_fungible : NativeFeeKind
  burn_non_fungible : NativeFeeKind
  create_token : NativeFeeKind
  create_token_series : NativeFeeKind
  register_name : NativeFeeKind
  script : NativeFeeKind

unfoldable pub uses_bare_signatures : NativeFeeKind → Bool
uses_bare_signatures NativeFeeKind.transfer_fungible = true
uses_bare_signatures NativeFeeKind.transfer_non_fungible = true
uses_bare_signatures NativeFeeKind.mint_fungible = true
uses_bare_signatures NativeFeeKind.mint_non_fungible = true
uses_bare_signatures NativeFeeKind.burn_fungible = true
uses_bare_signatures NativeFeeKind.burn_non_fungible = true
uses_bare_signatures _ = false

pub record InfusedAsset : Type 0 where
  pub token_id : Option ℕ
  pub non_fungible : Bool
  pub instance_count : Option ℕ
  pub burner_holds_token : Bool

pub record NativeFeeParams : Type 0 where
  pub envelope_bytes : ℕ
  pub count : Option ℕ
  pub token_id : Option ℕ
  pub recipient_holds_token : Bool
  pub to_is_nft_address : Bool
  pub big_fungible : Option Bool
  pub token_burned_before : Bool
  pub supply_row_exists : Bool
  pub infusions : Option (List InfusedAsset)
  pub symbol_length : ℕ
  pub token_info_bytes : ℕ
  pub non_fungible : Bool
  pub has_pre_burn : Bool
  pub has_inflation_schedule : Bool
  pub has_staking_organisation : Bool
  pub has_staking_reward_token : Bool
  pub series_info_bytes : ℕ
  pub series_has_meta_id : Option Bool
  pub name_length : ℕ
  pub rom_bytes : List ℕ
  pub ram_bytes : List ℕ
  pub rom_has_meta_id : Option Bool
  pub duplicated_series : Option Bool
  pub distinct_series_count : Option ℕ
  pub payload_bytes : ℕ
  pub script_units_allowance : Option ℕ
  pub script_event_bytes : Option ℕ
  pub script_storage_quanta : Option ℕ

-- Work units, policy fee, result bytes and row changes of one operation.
pub record OperationModel : Type 0 where
  pub work_units : ℕ
  pub policy_fee : ℕ
  pub result_bytes : ℕ
  pub new_quanta : ℕ
  pub deleted_quanta : ℕ

abbrev pub no_operation : OperationModel
no_operation = record {
  work_units = 0;
  policy_fee = 0;
  result_bytes = 0;
  new_quanta = 0;
  deleted_quanta = 0;
}

pub record NativeFeePart : Type 0 where
  pub kind : NativeFeeKind
  pub params : NativeFeeParams

pub record NativeFeeTransactionParams : Type 0 where
  pub envelope_bytes : ℕ
  pub payload_bytes : ℕ

pub record NativeFeeEstimate : Type 0 where
  pub max_gas : ℕ
  pub max_data : ℕ
  pub expected_gas_bill : ℕ
  pub new_storage_quanta : ℕ
  pub deleted_storage_quanta : ℕ

pub record FeeQuote : Type 0 where
  pub max_gas : ℕ
  pub max_data : ℕ
  pub expected_gas_bill : ℕ

unfoldable pub quote : NativeFeeEstimate → FeeQuote
quote e = record {
  max_gas = e.max_gas;
  max_data = e.max_data;
  expected_gas_bill = e.expected_gas_bill;
}
