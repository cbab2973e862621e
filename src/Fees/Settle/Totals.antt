-- ===== src/Fees/Settle/Totals.antt =====
-- What the parts of a transaction add up to: exact sums, cut at the width of their type, in which
-- the order of the parts does not count.
use phantasma_sdk_rs.Prelude.{ℕ, ◌+◌, ◌≤◌, ◌≡◌, refl, sym, ap, ◌∙◌, arith, min, List, [], ◌∷◌}
use phantasma_sdk_rs.Carbon.GasConfig.{GasConfig}
use phantasma_sdk_rs.Fees.Words.{sat_add64, sat_add32, max_u64, max_u32}
use phantasma_sdk_rs.Fees.Params.{OperationModel, no_operation, NativeFeeTransactionParams}
use phantasma_sdk_rs.Fees.Settle.{add_model, total_from, settle, settle_total}
use mathlib.Core.List.{Perm, Permᴰ}
use mathlib.Core.Logic.{∥∥₁_elim}
use native.Mathlib.Nat.{ℕ_set}

-- The sum of a field over the parts, with no width.
pub sum_of : (OperationModel → ℕ) → List OperationModel → ℕ
sum_of f [] = 0
sum_of f (m ∷ ms) = f m + sum_of f ms

-- The running total and the sums of what is to come, each cut at the width of its type.
abbrev saturated : OperationModel → List OperationModel → OperationModel
saturated t ms = record {
  work_units = min (t.work_units + sum_of (λ m. m.work_units) ms) max_u64;
  policy_fee = min (t.policy_fee + sum_of (λ m. m.policy_fee) ms) max_u64;
  result_bytes = min (t.result_bytes + sum_of (λ m. m.result_bytes) ms) max_u32;
  new_quanta = min (t.new_quanta + sum_of (λ m. m.new_quanta) ms) max_u32;
  deleted_quanta = min (t.deleted_quanta + sum_of (λ m. m.deleted_quanta) ms) max_u32;
}

record InWidth (t : OperationModel) : Type 0 where
  work : t.work_units ≤ max_u64
  policy : t.policy_fee ≤ max_u64
  result : t.result_bytes ≤ max_u32
  created : t.new_quanta ≤ max_u32
  deleted : t.deleted_quanta ≤ max_u32

add_model-InWidth : (t m : OperationModel) → InWidth (add_model t m)
unfolding add_model sat_add64 sat_add32
add_model-InWidth t m = omega arith

saturated_step :
    (t m : OperationModel) (ms : List OperationModel)
    → saturated (add_model t m) ms ≡ saturated t (m ∷ ms)
unfolding add_model sat_add64 sat_add32 sum_of
saturated_step t m ms = ground arith

total_from-saturated :
    (t : OperationModel) (ms : List OperationModel) → InWidth t → total_from t ms ≡ saturated t ms
unfolding total_from sum_of
total_from-saturated t [] w = ground arith
total_from-saturated t (m ∷ ms) w =
    total_from-saturated (add_model t m) ms (add_model-InWidth t m) ∙ saturated_step t m ms

-- The running total of the parts is, in every field, the exact sum of the parts, cut at the largest
-- value of its type.
pub total_lem :
    (ms : List OperationModel)
    → total_from no_operation ms ≡ record {
      work_units = min (sum_of (λ m. m.work_units) ms) max_u64;
      policy_fee = min (sum_of (λ m. m.policy_fee) ms) max_u64;
      result_bytes = min (sum_of (λ m. m.result_bytes) ms) max_u32;
      new_quanta = min (sum_of (λ m. m.new_quanta) ms) max_u32;
      deleted_quanta = min (sum_of (λ m. m.deleted_quanta) ms) max_u32;
    }
total_lem ms = total_from-saturated no_operation ms (omega arith) ∙ ground arith

sum_of-permᴰ :
    (f : OperationModel → ℕ) {xs ys : List OperationModel} → Permᴰ xs ys → sum_of f xs ≡ sum_of f ys
unfolding sum_of
sum_of-permᴰ f Permᴰ.nil = refl
sum_of-permᴰ f (Permᴰ.cons e p) = omega (arith, ap f e, sum_of-permᴰ f p)
sum_of-permᴰ f (Permᴰ.swap e d) = omega (arith, ap f e, ap f d)
sum_of-permᴰ f (Permᴰ.trans p q) = sum_of-permᴰ f p ∙ sum_of-permᴰ f q

sum_of-perm :
    (f : OperationModel → ℕ) {xs ys : List OperationModel} → Perm xs ys → sum_of f xs ≡ sum_of f ys
sum_of-perm f p = ∥∥₁_elim p (ℕ_set _ _) (sum_of-permᴰ f)

-- A transaction is settled alike in whatever order its operations stand.
pub settle-perm :
    (xs ys : List OperationModel) (c : GasConfig) (x : NativeFeeTransactionParams)
    → Perm xs ys
    → settle xs c x ≡ settle ys c x
unfolding settle
settle-perm xs ys c x p =
    ap (λ t. settle_total t c x)
      (total_lem xs
        ∙ (rw (
          sum_of-perm (λ m. m.work_units) p,
          sum_of-perm (λ m. m.policy_fee) p,
          sum_of-perm (λ m. m.result_bytes) p,
          sum_of-perm (λ m. m.new_quanta) p,
          sum_of-perm (λ m. m.deleted_quanta) p,
        ))
        ∙ sym (total_lem ys))
