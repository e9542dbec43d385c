-- ===== src/Common/Small.antt =====
-- Facts about the numbers below a bound, by trying each.
use Prim.Native.Nat.{ℕ, zero, suc, ◌<◌}
use mathlib.Core.Path.{◌≡◌}
use mathlib.Core.Logic.{inl, inr}
use mathlib.Core.Bool.{Bool, true, ◌&&◌}
use native.Mathlib.Omega.{arith}
use gos_v.Common.Tests.{◌==◌, Bool-cases, ==→eq}

-- A test of each number below a bound.
unfoldable pub every : (ℕ → Bool) → ℕ → Bool
every p zero = true
every p (suc n) = p n && every p n

pub every-lt : (p : ℕ → Bool) (n d : ℕ) → every p n ≡ true → d < n → p d ≡ true
unfolding every
every-lt p zero d h l = absurd (omega arith)
every-lt p (suc n) d h l = elim (Bool-cases (d == n)) [
  | inl e ↦ let q = ==→eq d n e in rw q (ground arith)
  | inr e ↦ every-lt p n d (ground arith) (ground arith)
]
