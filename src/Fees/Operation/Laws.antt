-- ===== src/Fees/Operation/Laws.antt =====
-- Facts about single operations: instance lists, refusals, and the facts of the chain's state that
-- a caller may know.
use phantasma_sdk_rs.Prelude.{ℕ, ◌≡◌, sym, ◌∙◌, ap, arith, List, [], ◌∷◌, length, length-replicate}
use phantasma_sdk_rs.Error.{ok, ok-injective}
use phantasma_sdk_rs.Fees.Operation.{per_instance}

-- An expanded list of sizes has one entry for each instance.
pub length-per_instance :
    (values : List ℕ) (count : ℕ) {out : List ℕ}
    → per_instance values count ≡ ok out
    → length out ≡ count
unfolding per_instance
length-per_instance [] count e = ap length (sym (ok-injective e)) ∙ length-replicate count 0
length-per_instance (v ∷ []) count e = ap length (sym (ok-injective e)) ∙ length-replicate count v
length-per_instance (v ∷ u ∷ values) count e = ground arith
