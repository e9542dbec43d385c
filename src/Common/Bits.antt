-- ===== src/Common/Bits.antt =====
-- Single bits of a word: `w & (1 << k)`, `w | (1 << k)` and `w & ~(1 << k)`.
use Prim.Native.Nat.{ℕ, zero, suc, ◌+◌, ◌*◌, ◌/◌, ◌%◌}
use mathlib.Core.Path.{◌≡◌, refl, ap}
use mathlib.Core.Bool.{Bool, true, false}
use mathlib.Core.List.{List, [], ◌∷◌}
use native.Mathlib.Omega.{arith}
use gos_v.Common.Tests.{◌==◌, if◌then◌else◌}
use gos_v.Common.Lists.{length, set}

-- `(w & (1 << k)) != 0`
unfoldable pub has_bit : ℕ → ℕ → Bool
has_bit w zero = w % 2 == 1
has_bit w (suc k) = has_bit (w / 2) k

-- `w | (1 << k)`
unfoldable pub set_bit : ℕ → ℕ → ℕ
set_bit w zero = w / 2 * 2 + 1
set_bit w (suc k) = set_bit (w / 2) k * 2 + w % 2

-- `w & ~(1 << k)`
unfoldable pub clear_bit : ℕ → ℕ → ℕ
clear_bit w zero = w / 2 * 2
clear_bit w (suc k) = clear_bit (w / 2) k * 2 + w % 2

half_odd : (w : ℕ) → (w / 2 * 2 + 1) / 2 ≡ w / 2
half_odd w = omega arith

half_even : (w : ℕ) → w / 2 * 2 / 2 ≡ w / 2
half_even w = omega arith

half_join : (x w : ℕ) → (x * 2 + w % 2) / 2 ≡ x
half_join x w = omega arith

pub has_bit-set_bit : (w k j : ℕ) → has_bit (set_bit w k) j ≡ (if j == k then true else has_bit w j)
unfolding has_bit set_bit
has_bit-set_bit w zero zero = ground arith
has_bit-set_bit w zero (suc j) = ground (arith, ap (λ v. has_bit v j) (half_odd w))
has_bit-set_bit w (suc k) zero = ground arith
has_bit-set_bit w (suc k) (suc j) =
    ground
      (arith, ap (λ v. has_bit v j) (half_join (set_bit (w / 2) k) w), has_bit-set_bit (w / 2) k j)

pub has_bit-clear_bit :
    (w k j : ℕ) → has_bit (clear_bit w k) j ≡ (if j == k then false else has_bit w j)
unfolding has_bit clear_bit
has_bit-clear_bit w zero zero = ground arith
has_bit-clear_bit w zero (suc j) = ground (arith, ap (λ v. has_bit v j) (half_even w))
has_bit-clear_bit w (suc k) zero = ground arith
has_bit-clear_bit w (suc k) (suc j) = ground (
  arith,
  ap (λ v. has_bit v j) (half_join (clear_bit (w / 2) k) w),
  has_bit-clear_bit (w / 2) k j,
)

-- The `n` lowest bits of a word, lowest first.
unfoldable pub bits : ℕ → ℕ → List Bool
bits zero w = []
bits (suc n) w = (w % 2 == 1) ∷ bits n (w / 2)

pub length-bits : (n w : ℕ) → length (bits n w) ≡ n
unfolding bits
length-bits zero w = refl
length-bits (suc n) w = ap suc (length-bits n (w / 2))

pub bits-set_bit : (n w k : ℕ) → bits n (set_bit w k) ≡ set (bits n w) k true
unfolding bits set_bit
bits-set_bit zero w k = refl
bits-set_bit (suc n) w zero = ground (arith, ap (bits n) (half_odd w))
bits-set_bit (suc n) w (suc k) =
    ground (arith, ap (bits n) (half_join (set_bit (w / 2) k) w), bits-set_bit n (w / 2) k)

pub bits-clear_bit : (n w k : ℕ) → bits n (clear_bit w k) ≡ set (bits n w) k false
unfolding bits clear_bit
bits-clear_bit zero w k = refl
bits-clear_bit (suc n) w zero = ground (arith, ap (bits n) (half_even w))
bits-clear_bit (suc n) w (suc k) =
    ground (arith, ap (bits n) (half_join (clear_bit (w / 2) k) w), bits-clear_bit n (w / 2) k)
