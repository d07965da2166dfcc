-- ===== src/Base/Bounded.antt =====
-- A test of all numbers below a bound, as a computation.
use Prim.Native.Nat.{ℕ, zero, suc, ◌<◌}
use mathlib.Core.Path.{◌≡◌}
use mathlib.Core.Bool.{Bool, true, ◌&&◌}
use native.Mathlib.Omega.{arith}

-- The test holds of the values from 0 to one below the bound.
unfoldable pub passes : (ℕ → Bool) → ℕ → Bool
passes test zero = true
passes test (suc last) = passes test last && test last

pub passes_lem :
    (test : ℕ → Bool) (bound i : ℕ) → i < bound → passes test bound ≡ true → test i ≡ true
unfolding passes
passes_lem test zero i below h = absurd (omega arith)
passes_lem test (suc last) i below h = ground (arith, passes_lem test last i)
