-- ===== src/Base/Bounded.antt =====
-- A test that holds of every number below a bound.
use Prim.Native.Nat.{ℕ, zero, suc, ◌<◌}
use mathlib.Core.Path.{◌≡◌}
use mathlib.Core.Logic.{inl, inr}
use mathlib.Core.Bool.{Bool, true, ◌&&◌}
use native.Mathlib.Omega.{arith}
use lvos.Base.Tests.{nat_beq, nat_beq_iff, Bool-cases}

unfoldable pub all_below : (ℕ → Bool) → ℕ → Bool
all_below test zero = true
all_below test (suc n) = test n && all_below test n

pub all_below-holds : (test : ℕ → Bool) (n i : ℕ) → all_below test n ≡ true → i < n → test i ≡ true
unfolding all_below
all_below-holds test zero i h less = absurd (omega arith)
all_below-holds test (suc n) i h less = elim (Bool-cases (nat_beq i n)) [
  | inl same ↦ let e : i ≡ n = (nat_beq_iff i n).0 same in rw e (ground (arith, h))
  | inr differ ↦
      all_below-holds test n i (ground (arith, h)) (ground (arith, less, differ, nat_beq_iff i n))
]
