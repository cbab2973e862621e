-- ===== src/Fees/Settle/Facts.antt =====
-- What a caller of the calculator in src/fees.rs gains by stating facts of the chain's state: a
-- recipient that holds the token, a supply row that exists, a balance that is small.
use phantasma_sdk_rs.Prelude.{
  ℕ, ◌≤◌, ◌≡◌, refl, sym, ◌∙◌, arith, true, false, List, [], ◌∷◌, some, ◌==◌, Bool-cases, inl, inr,
  subst,
}
use phantasma_sdk_rs.Error.{ok, err, builder, ok-injective, chain_steps}
use phantasma_sdk_rs.Carbon.GasConfig.{GasConfig}
use phantasma_sdk_rs.Fees.Words.{add32, quantum, sat_add64, sat_add32}
use phantasma_sdk_rs.Fees.Params.{
  NativeFeeKind, NativeFeeParams, NativeFeePart, NativeFeeTransactionParams, OperationModel,
  NativeFeeEstimate, no_operation, or_default,
}
use phantasma_sdk_rs.Fees.Operation.{
  recipient_row, burnt_row, supply_row, balance_result_bytes, infusion_query,
  model_transfer_fungible, model_mint_fungible, model_burn_fungible, operation_model,
}
use phantasma_sdk_rs.Fees.Settle.{
  add_model, total_from, settle_total, settle, part_model, part_models, estimate_native_fee_batch,
  estimate_native_fee,
}
use phantasma_sdk_rs.Fees.Settle.Monotone.{DoesLess, CostsLess, settle_total-CostsLess}

-- The best that a caller can state of the chain: the rows are there already and balances are small.
unfoldable pub settled_facts : NativeFeeParams → NativeFeeParams
settled_facts p = record p {
  recipient_holds_token = true;
  token_burned_before = true;
  supply_row_exists = true;
  big_fungible = some false;
}

-- The kinds that move a fungible token.
pub data FungibleKind : Type 0 where
  transfer mint burn : FungibleKind

abbrev pub kind_of : FungibleKind → NativeFeeKind
kind_of transfer = NativeFeeKind.transfer_fungible
kind_of mint = NativeFeeKind.mint_fungible
kind_of burn = NativeFeeKind.burn_fungible

abbrev model_of : FungibleKind → GasConfig → NativeFeeParams → ℕ → OperationModel
model_of transfer c p n = model_transfer_fungible c p n
model_of mint c p n = model_mint_fungible c p n
model_of burn c p n = model_burn_fungible c p n

operation_model_lem :
    (kind : FungibleKind) (c : GasConfig) (p : NativeFeeParams) (n : ℕ)
    → operation_model (kind_of kind) c p n ≡ ok (model_of kind c p n)
unfolding operation_model
operation_model_lem transfer c p n = refl
operation_model_lem mint c p n = refl
operation_model_lem burn c p n = refl

small_result :
    (c : GasConfig) (p : NativeFeeParams) (n : ℕ)
    → balance_result_bytes c (settled_facts p) n ≤ balance_result_bytes c p n
unfolding balance_result_bytes settled_facts
small_result c p n = ground arith

abbrev SettledLess : FungibleKind → GasConfig → NativeFeeParams → ℕ → Type 0
SettledLess kind c p n = DoesLess (model_of kind c (settled_facts p) n) (model_of kind c p n)

transfer_less : (c : GasConfig) (p : NativeFeeParams) (n : ℕ) → SettledLess transfer c p n
unfolding model_transfer_fungible infusion_query recipient_row quantum settled_facts
transfer_less c p n = record {
  work = omega arith;
  policy = omega arith;
  result = omega arith;
  created = omega arith;
  deleted = omega arith;
}

mint_less : (c : GasConfig) (p : NativeFeeParams) (n : ℕ) → SettledLess mint c p n
unfolding model_mint_fungible infusion_query recipient_row supply_row quantum settled_facts add32
mint_less c p n = record {
  work = omega arith;
  policy = omega arith;
  result = small_result c p n;
  created = omega arith;
  deleted = omega arith;
}

burn_less : (c : GasConfig) (p : NativeFeeParams) (n : ℕ) → SettledLess burn c p n
unfolding model_burn_fungible burnt_row supply_row quantum settled_facts add32
burn_less c p n = record {
  work = omega arith;
  policy = omega arith;
  result = small_result c p n;
  created = omega arith;
  deleted = omega arith;
}

model_of-DoesLess :
    (kind : FungibleKind) (c : GasConfig) (p : NativeFeeParams) (n : ℕ) → SettledLess kind c p n
model_of-DoesLess transfer = transfer_less
model_of-DoesLess mint = mint_less
model_of-DoesLess burn = burn_less

add_model-DoesLess :
    (t a b : OperationModel) → DoesLess a b → DoesLess (add_model t a) (add_model t b)
unfolding add_model sat_add64 sat_add32
add_model-DoesLess t a b h = record {
  work = omega arith;
  policy = omega arith;
  result = omega arith;
  created = omega arith;
  deleted = omega arith;
}

abbrev count_of : NativeFeeParams → ℕ
count_of p = or_default p.count 1

abbrev transaction_of : NativeFeeParams → NativeFeeTransactionParams
transaction_of p = record { envelope_bytes = p.envelope_bytes; payload_bytes = p.payload_bytes }

abbrev parts_of : FungibleKind → NativeFeeParams → List NativeFeePart
parts_of kind p = record { kind = kind_of kind; params = p } ∷ []

part_refused :
    (kind : FungibleKind) (c : GasConfig) (p : NativeFeeParams)
    → (count_of p == 0) ≡ true
    → part_models (parts_of kind p) c
      ≡ err (builder "estimate_native_fee: count must be a positive integer")
unfolding part_models part_model
part_refused kind c p e = rw e

part_asked :
    (kind : FungibleKind) (c : GasConfig) (p : NativeFeeParams)
    → (count_of p == 0) ≡ false
    → part_models (parts_of kind p) c ≡ ok (model_of kind c p (count_of p) ∷ [])
unfolding part_models part_model
part_asked kind c p e = rw (e, operation_model_lem kind c p (count_of p))

-- The answer for one operation, where there is one.
estimate_answer :
    (kind : FungibleKind) (c : GasConfig) (p : NativeFeeParams) {e : NativeFeeEstimate}
    → estimate_native_fee (kind_of kind) c p ≡ ok e
    → settle_total (add_model no_operation (model_of kind c p (count_of p))) c (transaction_of p)
      ≡ ok e
unfolding estimate_native_fee estimate_native_fee_batch settle total_from
estimate_answer kind c p {e} h =
    let (models, settled, found) =
      chain_steps (λ models. settle models c (transaction_of p)) (part_models (parts_of kind p) c)
        h in
    elim (Bool-cases (count_of p == 0)) [
      | inl none_asked ↦ absurd (cc (part_refused kind c p none_asked, found))
      | inr asked ↦
          let same = ok-injective (sym (part_asked kind c p asked) ∙ found) in
          subst (λ ms. settle_total (total_from no_operation ms) c (transaction_of p) ≡ ok e)
            (sym same) settled
    ]

-- Stating the settled facts for a transfer, a mint or a burn of a fungible token never raises the
-- bill, the offer or the escrow of the estimate.
pub estimate_native_fee-settled_facts :
    (kind : FungibleKind) (c : GasConfig) (p : NativeFeeParams) (d e : NativeFeeEstimate)
    → estimate_native_fee (kind_of kind) c (settled_facts p) ≡ ok d
    → estimate_native_fee (kind_of kind) c p ≡ ok e
    → CostsLess d e
estimate_native_fee-settled_facts kind c p d e h k =
    settle_total-CostsLess _ _ c (transaction_of p) d e
      (add_model-DoesLess no_operation _ _ (model_of-DoesLess kind c p (count_of p)))
      (unfold settled_facts in estimate_answer kind c (settled_facts p) h)
      (estimate_answer kind c p k)
