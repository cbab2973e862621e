-- ===== src/Prelude/Bits.antt =====
-- Facts about every number below a bound, decided by running a test on each of them.
use Prim.Native.Nat.{ℕ, zero, suc, ◌<◌}
use mathlib.Core.Path.{◌≡◌}
use mathlib.Core.Bool.{Bool, true, ◌&&◌}
use native.Mathlib.Omega.{arith}

unfoldable pub passes_below : (ℕ → Bool) → ℕ → Bool
passes_below test zero = true
passes_below test (suc bound) = passes_below test bound && test bound

pub passes_below_at :
    (test : ℕ → Bool) (bound : ℕ)
    → passes_below test bound ≡ true
    → (k : ℕ) → k < bound
    → test k ≡ true
unfolding passes_below
passes_below_at test zero passed k small = absurd (omega arith)
passes_below_at test (suc bound) passed k small =
    ground (arith, passes_below_at test bound (ground arith) k)
