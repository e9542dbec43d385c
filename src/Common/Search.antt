-- ===== src/Common/Search.antt =====
-- The loop `for (i = …; i < …; i++) if (p(i)) return i;`.
use Prim.Native.Nat.{ℕ, zero, suc, ◌+◌, ◌≤◌, ◌<◌}
use mathlib.Core.Path.{◌≡◌, refl, subst}
use mathlib.Core.Logic.{◌⊎◌, inl, inr}
use mathlib.Core.Bool.{Bool, true, false}
use mathlib.Core.Option.{Option, none, some}
use native.Mathlib.Omega.{arith}
use gos_v.Common.Tests.{if◌then◌else◌, Bool-cases}

pub at_or_after : (i k : ℕ) → i ≤ k → (i ≡ k) ⊎ (i + 1 ≤ k)
at_or_after i k h = ground arith

module _ (p : ℕ → Bool) where
  -- For a number of rounds from `i` on.
  unfoldable pub first_from : ℕ → ℕ → Option ℕ
  first_from zero i = none
  first_from (suc rounds) i = let rest = first_from rounds (i + 1) in if p i then some i else rest

  -- What a search of `n` rounds from `i` on tells.
  unfoldable pub Found : ℕ → ℕ → Option ℕ → Type 0
  Found n i none = (k : ℕ) → i ≤ k → k < i + n → p k ≡ false
  Found n i (some j) =
      (i ≤ j) × (j < i + n) × (p j ≡ true) × ((k : ℕ) → i ≤ k → k < j → p k ≡ false)

  Found-later : (n i : ℕ) → p i ≡ false → (r : Option ℕ) → Found n (i + 1) r → Found (suc n) i r
  unfolding Found
  Found-later n i e none f = λ k l g. elim (at_or_after i k l) [
    | inl q ↦ subst (λ x. p x ≡ false) q e
    | inr q ↦ f k q (omega arith)
  ]
  Found-later n i e (some j) (a, b, c, d) = (
    omega arith,
    omega arith,
    c,
    λ k l g. elim (at_or_after i k l) [ inl q ↦ subst (λ x. p x ≡ false) q e | inr q ↦ d k q g ],
  )

  pub first_from-Found : (n i : ℕ) → Found n i (first_from n i)
  unfolding first_from Found
  first_from-Found zero i = λ k l g. absurd (omega arith)
  first_from-Found (suc n) i = elim (Bool-cases (p i)) [
    | inl e ↦ rw e (omega arith, omega arith, e, λ k l g. absurd (omega arith))
    | inr e ↦ rw e (Found-later n i e (first_from n (i + 1)) (first_from-Found n (i + 1)))
  ]

-- The loop `for (i = …; i < …; i++)` round another loop that may return.
module _ {ℓ} {A : Type ℓ} (f : ℕ → Option A) where
  unfoldable pub first_some : ℕ → ℕ → Option A
  first_some zero i = none
  first_some (suc rounds) i =
      let rest = first_some rounds (i + 1) in elim (f i) [ some a ↦ some a | none ↦ rest ]

  unfoldable pub FirstSome : ℕ → ℕ → Option A → Type ℓ
  FirstSome n i none = (k : ℕ) → i ≤ k → k < i + n → f k ≡ none
  FirstSome n i (some a) =
      (j : ℕ) × (i ≤ j) × (j < i + n) × (f j ≡ some a) × ((k : ℕ) → i ≤ k → k < j → f k ≡ none)

  FirstSome-later :
      (n i : ℕ) → f i ≡ none → (r : Option A) → FirstSome n (i + 1) r → FirstSome (suc n) i r
  unfolding FirstSome
  FirstSome-later n i e none g = λ k l m. elim (at_or_after i k l) [
    | inl q ↦ subst (λ x. f x ≡ none) q e
    | inr q ↦ g k q (omega arith)
  ]
  FirstSome-later n i e (some a) (j, p, q, r, g) = (
    j,
    omega arith,
    omega arith,
    r,
    λ k l m. elim (at_or_after i k l) [ inl q ↦ subst (λ x. f x ≡ none) q e | inr q ↦ g k q m ],
  )

  step_FirstSome :
      (n i : ℕ) (v r : Option A)
      → f i ≡ v
      → FirstSome n (i + 1) r
      → FirstSome (suc n) i (elim v as (λ _. Option A) [ some a ↦ some a | none ↦ r ])
  unfolding FirstSome
  step_FirstSome n i none r e g = FirstSome-later n i e r g
  step_FirstSome n i (some a) r e g =
      (i, omega arith, omega arith, e, λ k l m. absurd (omega arith))

  pub first_some-FirstSome : (n i : ℕ) → FirstSome n i (first_some n i)
  unfolding first_some FirstSome
  first_some-FirstSome zero i = λ k l m. absurd (omega arith)
  first_some-FirstSome (suc n) i =
      step_FirstSome n i (f i) (first_some n (i + 1)) refl (first_some-FirstSome n (i + 1))
