-- ===== src/Carbon/GasConfig/Laws.antt =====
-- A gas configuration of either version is read as it was written.
use phantasma_sdk_rs.Prelude.{
  ◌^◌, ◌≤◌, ◌<◌, ◌≡◌, refl, arith, ◌==◌, if◌then◌else◌, Bool-cases, ◌⊎◌, inl, inr, subst,
}
use phantasma_sdk_rs.Stream.{skip, pure}
use phantasma_sdk_rs.Stream.Codes.{Codes, Codes-bind, Codes-end, Codes-weaken, Codes-skip}
use phantasma_sdk_rs.Carbon.Wire.Laws.{Codes-1, Codes-4u, Codes-8u}
use phantasma_sdk_rs.Carbon.GasConfig.{
  GasConfig, write_gas_tail, write_gas_config, read_gas_tail, read_gas_config,
}

-- The configuration without the fields of the tail.
abbrev pub without_tail : GasConfig → GasConfig
without_tail c = record c {
  minimum_gas_bill = 0;
  gas_producer_ratio_mul = 0;
  gas_producer_ratio_shift = 0;
  gas_dapp_ratio_mul = 0;
  gas_dapp_ratio_shift = 0;
  policy_fee_create_token_base = 0;
  policy_fee_create_token_symbol = 0;
  policy_fee_create_token_series = 0;
  policy_fee_register_name = 0;
  legacy_data_escrow_per_row = 0;
}

-- The ranges of the field types, and no tail in version 0.
pub record GasConfigFits (c : GasConfig) : Type 0 where
  pub version : c.version < 2 ^ 8
  pub max_name_length : c.max_name_length < 2 ^ 8
  pub max_token_symbol_length : c.max_token_symbol_length < 2 ^ 8
  pub fee_shift : c.fee_shift < 2 ^ 8
  pub max_structure_size : c.max_structure_size < 2 ^ 32
  pub fee_multiplier : c.fee_multiplier < 2 ^ 64
  pub gas_token_id : c.gas_token_id < 2 ^ 64
  pub data_token_id : c.data_token_id < 2 ^ 64
  pub minimum_gas_offer : c.minimum_gas_offer < 2 ^ 64
  pub data_escrow_per_row : c.data_escrow_per_row < 2 ^ 64
  pub gas_fee_transfer : c.gas_fee_transfer < 2 ^ 64
  pub gas_fee_query : c.gas_fee_query < 2 ^ 64
  pub gas_fee_create_token_base : c.gas_fee_create_token_base < 2 ^ 64
  pub gas_fee_create_token_symbol : c.gas_fee_create_token_symbol < 2 ^ 64
  pub gas_fee_create_token_series : c.gas_fee_create_token_series < 2 ^ 64
  pub gas_fee_per_byte : c.gas_fee_per_byte < 2 ^ 64
  pub gas_fee_register_name : c.gas_fee_register_name < 2 ^ 64
  pub gas_burn_ratio_mul : c.gas_burn_ratio_mul < 2 ^ 64
  pub gas_burn_ratio_shift : c.gas_burn_ratio_shift < 2 ^ 8
  pub minimum_gas_bill : c.minimum_gas_bill < 2 ^ 64
  pub gas_producer_ratio_mul : c.gas_producer_ratio_mul < 2 ^ 64
  pub gas_producer_ratio_shift : c.gas_producer_ratio_shift < 2 ^ 8
  pub gas_dapp_ratio_mul : c.gas_dapp_ratio_mul < 2 ^ 64
  pub gas_dapp_ratio_shift : c.gas_dapp_ratio_shift < 2 ^ 8
  pub policy_fee_create_token_base : c.policy_fee_create_token_base < 2 ^ 64
  pub policy_fee_create_token_symbol : c.policy_fee_create_token_symbol < 2 ^ 64
  pub policy_fee_create_token_series : c.policy_fee_create_token_series < 2 ^ 64
  pub policy_fee_register_name : c.policy_fee_register_name < 2 ^ 64
  pub legacy_data_escrow_per_row : c.legacy_data_escrow_per_row < 2 ^ 64
  pub tail : (1 ≤ c.version) ⊎ (without_tail c ≡ c)

Codes-tail :
    (c : GasConfig)
    → GasConfigFits c
    → Codes 0 (if c.version == 0 then skip else write_gas_tail c) (read_gas_tail (without_tail c)) c
unfolding write_gas_tail read_gas_tail
Codes-tail c h = elim (Bool-cases (c.version == 0)) [
  | inl e ↦ elim h.tail [
    | inl new ↦ absurd (ground arith)
    | inr old ↦
        rw e (subst (λ t. Codes 0 skip (pure (without_tail c)) t) old (Codes-skip (without_tail c)))
  ]
  | inr e ↦ rw e (
      Codes-weaken 0 (omega arith) (
        Codes-bind _ (Codes-8u c.minimum_gas_bill h.minimum_gas_bill) (
          Codes-bind _ (Codes-8u c.gas_producer_ratio_mul h.gas_producer_ratio_mul) (
            Codes-bind _ (Codes-1 c.gas_producer_ratio_shift) (
              Codes-bind _ (Codes-8u c.gas_dapp_ratio_mul h.gas_dapp_ratio_mul) (
                Codes-bind _ (Codes-1 c.gas_dapp_ratio_shift) (
                  Codes-bind _
                    (Codes-8u c.policy_fee_create_token_base h.policy_fee_create_token_base)
                    (Codes-bind _
                      (Codes-8u c.policy_fee_create_token_symbol h.policy_fee_create_token_symbol)
                      (Codes-bind _
                        (Codes-8u c.policy_fee_create_token_series h.policy_fee_create_token_series)
                        (Codes-bind _
                          (Codes-8u c.policy_fee_register_name h.policy_fee_register_name)
                          (Codes-end _
                            (Codes-8u c.legacy_data_escrow_per_row h.legacy_data_escrow_per_row)
                            refl)))))))))))
]

pub Codes-gas_config :
    (c : GasConfig) → GasConfigFits c → Codes 1 (write_gas_config c) read_gas_config c
unfolding write_gas_config read_gas_config
Codes-gas_config c h = Codes-weaken 1 (omega arith) (
    Codes-bind _ (Codes-1 c.version) (
      Codes-bind _ (Codes-1 c.max_name_length) (
        Codes-bind _ (Codes-1 c.max_token_symbol_length) (
          Codes-bind _ (Codes-1 c.fee_shift) (
            Codes-bind _ (Codes-4u c.max_structure_size h.max_structure_size) (
              Codes-bind _ (Codes-8u c.fee_multiplier h.fee_multiplier) (
                Codes-bind _ (Codes-8u c.gas_token_id h.gas_token_id) (
                  Codes-bind _ (Codes-8u c.data_token_id h.data_token_id) (
                    Codes-bind _ (Codes-8u c.minimum_gas_offer h.minimum_gas_offer) (
                      Codes-bind _ (Codes-8u c.data_escrow_per_row h.data_escrow_per_row) (
                        Codes-bind _ (Codes-8u c.gas_fee_transfer h.gas_fee_transfer) (
                          Codes-bind _ (Codes-8u c.gas_fee_query h.gas_fee_query) (
                            Codes-bind _
                              (Codes-8u c.gas_fee_create_token_base h.gas_fee_create_token_base)
                              (Codes-bind _
                                (Codes-8u c.gas_fee_create_token_symbol
                                  h.gas_fee_create_token_symbol)
                                (Codes-bind _
                                  (Codes-8u c.gas_fee_create_token_series
                                    h.gas_fee_create_token_series)
                                  (Codes-bind _ (Codes-8u c.gas_fee_per_byte h.gas_fee_per_byte) (
                                    Codes-bind _
                                      (Codes-8u c.gas_fee_register_name h.gas_fee_register_name)
                                      (Codes-bind _
                                        (Codes-8u c.gas_burn_ratio_mul h.gas_burn_ratio_mul)
                                        (Codes-bind _ (Codes-1 c.gas_burn_ratio_shift)
                                          (Codes-tail c h))))))))))))))))))))
