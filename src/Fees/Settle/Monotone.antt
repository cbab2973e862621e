-- ===== src/Fees/Settle/Monotone.antt =====
-- A transaction that does less is never billed more, nor asked for a higher offer or escrow.
use phantasma_sdk_rs.Prelude.{ℕ, ◌+◌, ◌≤◌, ◌≡◌, sym, ◌∙◌, arith, max, Bool-cases, inl, inr, ◌==◌}
use phantasma_sdk_rs.Error.{ok, ok-injective}
use phantasma_sdk_rs.Carbon.GasConfig.{GasConfig, has_gas_model_v2}
use phantasma_sdk_rs.Fees.Words.{sat_add64, sat_mul64, sat_sub}
use phantasma_sdk_rs.Fees.Words.Bounds.{mul_shift-le}
use phantasma_sdk_rs.Fees.Params.{OperationModel, NativeFeeTransactionParams, NativeFeeEstimate}
use phantasma_sdk_rs.Fees.Settle.{bill_v2, bill_v1, net_quanta, estimate_of, settle_total}
use phantasma_sdk_rs.Fees.Settle.Coverage.{settle_total_v1, settle_total_v2, settle_total_refuses}
use native.Mathlib.Nat.{mul-le-mul_right}

-- At most the work, fees, results and new rows, and at least the deleted rows.
pub record DoesLess (a b : OperationModel) : Type 0 where
  pub work : a.work_units ≤ b.work_units
  pub policy : a.policy_fee ≤ b.policy_fee
  pub result : a.result_bytes ≤ b.result_bytes
  pub created : a.new_quanta ≤ b.new_quanta
  pub deleted : b.deleted_quanta ≤ a.deleted_quanta

pub record CostsLess (a b : NativeFeeEstimate) : Type 0 where
  pub bill : a.expected_gas_bill ≤ b.expected_gas_bill
  pub offer : a.max_gas ≤ b.max_gas
  pub escrow : a.max_data ≤ b.max_data

abbrev PairLess : ℕ × ℕ → ℕ × ℕ → Type 0
PairLess p q = (p.0 ≤ q.0) × (p.1 ≤ q.1)

net_le : (a b : OperationModel) → DoesLess a b → net_quanta a ≤ net_quanta b
unfolding net_quanta sat_sub
net_le a b h = omega arith

sat_add_le : (a b c d : ℕ) → a ≤ c → b ≤ d → sat_add64 a b ≤ sat_add64 c d
unfolding sat_add64
sat_add_le a b c d h k = omega arith

sat_mul_le : (a b k : ℕ) → a ≤ b → sat_mul64 a k ≤ sat_mul64 b k
unfolding sat_mul64
sat_mul_le a b k h = omega (arith, mul-le-mul_right k h)

v2_le :
    (a b : OperationModel) (c : GasConfig) (x : NativeFeeTransactionParams)
    → DoesLess a b
    → PairLess (bill_v2 a c x) (bill_v2 b c x)
unfolding bill_v2
v2_le a b c x h =
    let block_a : ℕ = x.envelope_bytes + net_quanta a + a.result_bytes in
    let block_b : ℕ = x.envelope_bytes + net_quanta b + b.result_bytes in
    let units : sat_mul64 block_a 25 ≤ sat_mul64 block_b 25 =
      sat_mul_le block_a block_b 25 (omega (arith, net_le a b h, h.result)) in
    let scaled = mul_shift-le _ _ c.fee_multiplier c.fee_shift (sat_add_le _ _ _ _ h.work units) in
    let bill = sat_add_le _ _ _ _ scaled h.policy in (omega (arith, bill), omega (arith, bill))

v1_le :
    (a b : OperationModel) (c : GasConfig) (x : NativeFeeTransactionParams)
    → DoesLess a b
    → PairLess (bill_v1 a c x) (bill_v1 b c x)
unfolding bill_v1
v1_le a b c x h =
    let block_a : ℕ = x.payload_bytes + a.result_bytes + net_quanta a in
    let block_b : ℕ = x.payload_bytes + b.result_bytes + net_quanta b in
    let block : block_a ≤ block_b = omega (arith, net_le a b h, h.result) in
    let work = mul_shift-le _ _ c.fee_multiplier c.fee_shift h.work in
    (
      sat_add_le _ _ _ _ work (sat_mul_le block_a block_b c.gas_fee_per_byte block),
      sat_add_le _ _ _ _ (sat_add_le _ _ _ _ (omega arith) work) (
          sat_mul_le (max block_a 1024) (max block_b 1024) c.gas_fee_per_byte
            (omega (arith, block))),
    )

estimate_le :
    (a b : OperationModel) (c : GasConfig) (p q : ℕ × ℕ)
    → DoesLess a b
    → PairLess p q
    → CostsLess (estimate_of a c p) (estimate_of b c q)
unfolding estimate_of
estimate_le a b c p q h (k, l) = record {
  bill = k;
  offer = l;
  escrow = sat_mul_le _ _ c.data_escrow_per_row h.created;
}

-- A total with no more work, fees, results and new rows than another, and no fewer deleted rows, has
-- no higher bill, offer or escrow, where both are settled.
pub settle_total-CostsLess :
    (a b : OperationModel) (c : GasConfig) (x : NativeFeeTransactionParams)
    (d e : NativeFeeEstimate)
    → DoesLess a b
    → settle_total a c x ≡ ok d
    → settle_total b c x ≡ ok e
    → CostsLess d e
settle_total-CostsLess a b c x d e h p q = elim (Bool-cases (has_gas_model_v2 c)) [
  | inr v1 ↦
      let left = ok-injective (sym (settle_total_v1 a c x v1) ∙ p) in
      let right = ok-injective (sym (settle_total_v1 b c x v1) ∙ q) in
      rw (← left, ← right) (estimate_le a b c _ _ h (v1_le a b c x h))
  | inl v2 ↦ elim (Bool-cases (x.envelope_bytes == 0)) [
    | inl n ↦ absurd (cc (p, settle_total_refuses a c x v2 n))
    | inr n ↦
        let left = ok-injective (sym (settle_total_v2 a c x v2 n) ∙ p) in
        let right = ok-injective (sym (settle_total_v2 b c x v2 n) ∙ q) in
        rw (← left, ← right) (estimate_le a b c _ _ h (v2_le a b c x h))
  ]
]
