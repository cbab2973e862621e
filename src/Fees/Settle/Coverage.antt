-- ===== src/Fees/Settle/Coverage.antt =====
-- The offer of the fee calculator covers the bill that it expects, and respects the chain's floors.
use phantasma_sdk_rs.Prelude.{
  ℕ, ◌≤◌, ◌≡◌, sym, ◌∙◌, subst, arith, max, true, false, Bool-cases, inl, inr, List, ◌==◌,
  if◌then◌else◌,
}
use phantasma_sdk_rs.Error.{ok, err, builder, ok-injective, chain_steps}
use phantasma_sdk_rs.Carbon.GasConfig.{GasConfig, has_gas_model_v2}
use phantasma_sdk_rs.Fees.Words.{sat_add64, sat_mul64}
use phantasma_sdk_rs.Fees.Params.{
  OperationModel, NativeFeePart, NativeFeeTransactionParams, NativeFeeEstimate,
}
use phantasma_sdk_rs.Fees.Settle.{
  bill_v2, bill_v1, estimate_of, settle_total, settle, total_from, part_models,
  estimate_native_fee_batch,
}
use native.Mathlib.Nat.{mul-le-mul_right}

covers_v2 :
    (t : OperationModel) (c : GasConfig) (x : NativeFeeTransactionParams)
    → (bill_v2 t c x).0 ≤ (bill_v2 t c x).1
unfolding bill_v2
covers_v2 t c x = omega arith

sat_covers :
    (work block fee offer : ℕ)
    → sat_add64 work (sat_mul64 block fee)
      ≤ sat_add64 (sat_add64 offer work) (sat_mul64 (max block 1024) fee)
unfolding sat_add64 sat_mul64
sat_covers work block fee offer =
    omega (arith, mul-le-mul_right {m = block} {n = max block 1024} fee (omega arith))

covers_v1 :
    (t : OperationModel) (c : GasConfig) (x : NativeFeeTransactionParams)
    → (bill_v1 t c x).0 ≤ (bill_v1 t c x).1
unfolding bill_v1
covers_v1 t c x = sat_covers _ _ _ _

-- A floor that the chain sets since version 1 of the gas model.
abbrev pub floor : GasConfig → ℕ → ℕ
floor c minimum = if has_gas_model_v2 c then minimum else 0

-- What a settlement promises of its answer: the offer covers the bill, and both respect the floors.
pub record IsCovered (c : GasConfig) (e : NativeFeeEstimate) : Type 0 where
  pub offer : e.expected_gas_bill ≤ e.max_gas
  pub bill_floor : floor c c.minimum_gas_bill ≤ e.expected_gas_bill
  pub offer_floor : floor c c.minimum_gas_offer ≤ e.max_gas

estimate_v2 :
    (t : OperationModel) (c : GasConfig) (x : NativeFeeTransactionParams)
    → has_gas_model_v2 c ≡ true
    → IsCovered c (estimate_of t c (bill_v2 t c x))
unfolding estimate_of
estimate_v2 t c x new = record {
  offer = covers_v2 t c x;
  bill_floor = rw new (unfold bill_v2 in omega arith);
  offer_floor = rw new (unfold bill_v2 in omega arith);
}

estimate_v1 :
    (t : OperationModel) (c : GasConfig) (x : NativeFeeTransactionParams)
    → has_gas_model_v2 c ≡ false
    → IsCovered c (estimate_of t c (bill_v1 t c x))
unfolding estimate_of
estimate_v1 t c x old = record {
  offer = covers_v1 t c x;
  bill_floor = rw old (omega arith);
  offer_floor = rw old (omega arith);
}

pub settle_total_v2 :
    (t : OperationModel) (c : GasConfig) (x : NativeFeeTransactionParams)
    → has_gas_model_v2 c ≡ true
    → (x.envelope_bytes == 0) ≡ false
    → settle_total t c x ≡ ok (estimate_of t c (bill_v2 t c x))
unfolding settle_total
settle_total_v2 t c x v2 e = rw (v2, e)

pub settle_total_v1 :
    (t : OperationModel) (c : GasConfig) (x : NativeFeeTransactionParams)
    → has_gas_model_v2 c ≡ false
    → settle_total t c x ≡ ok (estimate_of t c (bill_v1 t c x))
unfolding settle_total
settle_total_v1 t c x v1 = rw v1

-- Since version 1 of the gas model, a total without envelope bytes is refused.
pub settle_total_refuses :
    (t : OperationModel) (c : GasConfig) (x : NativeFeeTransactionParams)
    → has_gas_model_v2 c ≡ true
    → (x.envelope_bytes == 0) ≡ true
    → settle_total t c x
      ≡ err (builder "estimate_native_fee: envelope_bytes is required under gas model v2")
unfolding settle_total
settle_total_refuses t c x v2 e = rw (v2, e)

settle_total-IsCovered :
    (t : OperationModel) (c : GasConfig) (x : NativeFeeTransactionParams) (e : NativeFeeEstimate)
    → settle_total t c x ≡ ok e
    → IsCovered c e
settle_total-IsCovered t c x e h = elim (Bool-cases (has_gas_model_v2 c)) [
  | inr v1 ↦
      subst (IsCovered c) (ok-injective (sym (settle_total_v1 t c x v1) ∙ h)) (estimate_v1 t c x v1)
  | inl v2 ↦ elim (Bool-cases (x.envelope_bytes == 0)) [
    | inl n ↦ absurd (cc (h, settle_total_refuses t c x v2 n))
    | inr n ↦
        subst (IsCovered c) (ok-injective (sym (settle_total_v2 t c x v2 n) ∙ h))
          (estimate_v2 t c x v2)
  ]
]

-- Every answer for a list of parts has an offer that covers its expected bill, and, since version 1
-- of the gas model, a bill and an offer that are not below the minima of the chain.
pub estimate_native_fee_batch-IsCovered :
    (parts : List NativeFeePart) (c : GasConfig) (x : NativeFeeTransactionParams)
    (e : NativeFeeEstimate)
    → estimate_native_fee_batch parts c x ≡ ok e
    → IsCovered c e
unfolding estimate_native_fee_batch settle
estimate_native_fee_batch-IsCovered parts c x e h =
    let (models, settled, _) = chain_steps (λ models. settle models c x) (part_models parts c) h in
    settle_total-IsCovered (total_from _ models) c x e settled
