-- ===== src/Carbon/GasConfig.antt =====
-- GasConfig of src/carbon.rs: the prices of the chain, with a tail since version 1.
pub mod Laws
use phantasma_sdk_rs.Prelude.{ℕ, Bool, ltb, leb, ◌==◌, if◌then◌else◌}
use phantasma_sdk_rs.Stream.{Put, Get, ◌▹◌, skip, pure, ◌>>=◌}
use phantasma_sdk_rs.Carbon.Wire.{
  CarbonSerializable, write1, write4u, write8u, read1, read4u, read8u,
}

pub record GasConfig : Type 0 where
  pub version : ℕ
  pub max_name_length : ℕ
  pub max_token_symbol_length : ℕ
  pub fee_shift : ℕ
  pub max_structure_size : ℕ
  pub fee_multiplier : ℕ
  pub gas_token_id : ℕ
  pub data_token_id : ℕ
  pub minimum_gas_offer : ℕ
  pub data_escrow_per_row : ℕ
  pub gas_fee_transfer : ℕ
  pub gas_fee_query : ℕ
  pub gas_fee_create_token_base : ℕ
  pub gas_fee_create_token_symbol : ℕ
  pub gas_fee_create_token_series : ℕ
  pub gas_fee_per_byte : ℕ
  pub gas_fee_register_name : ℕ
  pub gas_burn_ratio_mul : ℕ
  pub gas_burn_ratio_shift : ℕ
  pub minimum_gas_bill : ℕ
  pub gas_producer_ratio_mul : ℕ
  pub gas_producer_ratio_shift : ℕ
  pub gas_dapp_ratio_mul : ℕ
  pub gas_dapp_ratio_shift : ℕ
  pub policy_fee_create_token_base : ℕ
  pub policy_fee_create_token_symbol : ℕ
  pub policy_fee_create_token_series : ℕ
  pub policy_fee_register_name : ℕ
  pub legacy_data_escrow_per_row : ℕ

unfoldable pub has_gas_model_v2 : GasConfig → Bool
has_gas_model_v2 c = leb 1 c.version

unfoldable pub write_gas_tail : GasConfig → Put
write_gas_tail c =
    write8u c.minimum_gas_bill
    ▹ write8u c.gas_producer_ratio_mul
    ▹ write1 c.gas_producer_ratio_shift
    ▹ write8u c.gas_dapp_ratio_mul
    ▹ write1 c.gas_dapp_ratio_shift
    ▹ write8u c.policy_fee_create_token_base
    ▹ write8u c.policy_fee_create_token_symbol
    ▹ write8u c.policy_fee_create_token_series
    ▹ write8u c.policy_fee_register_name
    ▹ write8u c.legacy_data_escrow_per_row

unfoldable pub write_gas_config : GasConfig → Put
write_gas_config c =
    write1 c.version
    ▹ write1 c.max_name_length
    ▹ write1 c.max_token_symbol_length
    ▹ write1 c.fee_shift
    ▹ write4u c.max_structure_size
    ▹ write8u c.fee_multiplier
    ▹ write8u c.gas_token_id
    ▹ write8u c.data_token_id
    ▹ write8u c.minimum_gas_offer
    ▹ write8u c.data_escrow_per_row
    ▹ write8u c.gas_fee_transfer
    ▹ write8u c.gas_fee_query
    ▹ write8u c.gas_fee_create_token_base
    ▹ write8u c.gas_fee_create_token_symbol
    ▹ write8u c.gas_fee_create_token_series
    ▹ write8u c.gas_fee_per_byte
    ▹ write8u c.gas_fee_register_name
    ▹ write8u c.gas_burn_ratio_mul
    ▹ write1 c.gas_burn_ratio_shift
    ▹ (if c.version == 0 then skip else write_gas_tail c)

-- The second half of the read, on the configuration that the first half made.
unfoldable pub read_gas_tail : GasConfig → Get GasConfig
read_gas_tail c = if c.version == 0 then pure c else do
  minimum_gas_bill ← read8u
  gas_producer_ratio_mul ← read8u
  gas_producer_ratio_shift ← read1
  gas_dapp_ratio_mul ← read8u
  gas_dapp_ratio_shift ← read1
  policy_fee_create_token_base ← read8u
  policy_fee_create_token_symbol ← read8u
  policy_fee_create_token_series ← read8u
  policy_fee_register_name ← read8u
  legacy_data_escrow_per_row ← read8u
  pure (record c {
    minimum_gas_bill = minimum_gas_bill;
    gas_producer_ratio_mul = gas_producer_ratio_mul;
    gas_producer_ratio_shift = gas_producer_ratio_shift;
    gas_dapp_ratio_mul = gas_dapp_ratio_mul;
    gas_dapp_ratio_shift = gas_dapp_ratio_shift;
    policy_fee_create_token_base = policy_fee_create_token_base;
    policy_fee_create_token_symbol = policy_fee_create_token_symbol;
    policy_fee_create_token_series = policy_fee_create_token_series;
    policy_fee_register_name = policy_fee_register_name;
    legacy_data_escrow_per_row = legacy_data_escrow_per_row;
  })

unfoldable pub read_gas_config : Get GasConfig
read_gas_config = do
  version ← read1
  max_name_length ← read1
  max_token_symbol_length ← read1
  fee_shift ← read1
  max_structure_size ← read4u
  fee_multiplier ← read8u
  gas_token_id ← read8u
  data_token_id ← read8u
  minimum_gas_offer ← read8u
  data_escrow_per_row ← read8u
  gas_fee_transfer ← read8u
  gas_fee_query ← read8u
  gas_fee_create_token_base ← read8u
  gas_fee_create_token_symbol ← read8u
  gas_fee_create_token_series ← read8u
  gas_fee_per_byte ← read8u
  gas_fee_register_name ← read8u
  gas_burn_ratio_mul ← read8u
  gas_burn_ratio_shift ← read1
  read_gas_tail (record {
    version = version;
    max_name_length = max_name_length;
    max_token_symbol_length = max_token_symbol_length;
    fee_shift = fee_shift;
    max_structure_size = max_structure_size;
    fee_multiplier = fee_multiplier;
    gas_token_id = gas_token_id;
    data_token_id = data_token_id;
    minimum_gas_offer = minimum_gas_offer;
    data_escrow_per_row = data_escrow_per_row;
    gas_fee_transfer = gas_fee_transfer;
    gas_fee_query = gas_fee_query;
    gas_fee_create_token_base = gas_fee_create_token_base;
    gas_fee_create_token_symbol = gas_fee_create_token_symbol;
    gas_fee_create_token_series = gas_fee_create_token_series;
    gas_fee_per_byte = gas_fee_per_byte;
    gas_fee_register_name = gas_fee_register_name;
    gas_burn_ratio_mul = gas_burn_ratio_mul;
    gas_burn_ratio_shift = gas_burn_ratio_shift;
    minimum_gas_bill = 0;
    gas_producer_ratio_mul = 0;
    gas_producer_ratio_shift = 0;
    gas_dapp_ratio_mul = 0;
    gas_dapp_ratio_shift = 0;
    policy_fee_create_token_base = 0;
    policy_fee_create_token_symbol = 0;
    policy_fee_create_token_series = 0;
    policy_fee_register_name = 0;
    legacy_data_escrow_per_row = 0;
  })

instance abbrev pub gas_config_carbon : CarbonSerializable GasConfig
gas_config_carbon = record { write_carbon = write_gas_config; read_carbon = read_gas_config }
