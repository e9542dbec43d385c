-- ===== src/Common/Count.antt =====
-- How many of the numbers below a bound pass a test.
use Prim.Native.Nat.{ℕ, zero, suc, ◌+◌, ◌≤◌, ◌<◌}
use mathlib.Core.Path.{◌≡◌, refl, ap, sym, ◌∙◌}
use mathlib.Core.Bool.{Bool, true, false}
use mathlib.Core.Logic.{inl, inr}
use native.Mathlib.Omega.{arith}
use gos_v.Common.Tests.{if◌then◌else◌, ◌==◌, Bool-cases, ==→eq, ==→ne, ne→==, eq→==}

abbrev pub one_if : Bool → ℕ
one_if true = 1
one_if false = 0

unfoldable pub count : (ℕ → Bool) → ℕ → ℕ
count p zero = 0
count p (suc n) = one_if (p n) + count p n

pub count-le : (p : ℕ → Bool) (n : ℕ) → count p n ≤ n
unfolding count
count-le p zero = omega arith
count-le p (suc n) = ground (arith, count-le p n)

pub count-ext : (p q : ℕ → Bool) (n : ℕ) → ((k : ℕ) → k < n → p k ≡ q k) → count p n ≡ count q n
unfolding count
count-ext p q zero h = refl
count-ext p q (suc n) h = rw (h n (omega arith), count-ext p q n (λ k l. h k (omega arith))) refl

pub count-none : (p : ℕ → Bool) (n : ℕ) → ((k : ℕ) → k < n → p k ≡ false) → count p n ≡ 0
unfolding count
count-none p zero h = refl
count-none p (suc n) h = rw (h n (omega arith), count-none p n (λ k l. h k (omega arith))) refl

-- One that passed and passes no more.
pub count-drop :
    (p q : ℕ → Bool) (n i : ℕ)
    → i < n
    → p i ≡ true
    → ((k : ℕ) → q k ≡ (if k == i then false else p k))
    → count p n ≡ suc (count q n)
unfolding count
count-drop p q zero i l e h = absurd (omega arith)
count-drop p q (suc n) i l e h = elim (Bool-cases (n == i)) [
  | inl s ↦
      let t = ==→eq n i s in
      let u : q n ≡ false = h n ∙ ap (λ b. if b then false else p n) s in
      let v : p n ≡ true = ap p t ∙ e in
      let w : count p n ≡ count q n =
        count-ext p q n
          (λ k m. sym (h k ∙ ap (λ b. if b then false else p k) (ne→== k i (λ z. omega arith)))) in
      rw (u, v, w) (omega arith)
  | inr s ↦
      let u : q n ≡ p n = h n ∙ ap (λ b. if b then false else p n) s in
      let m = ==→ne n i s in
      let w = count-drop p q n i (ground arith) e h in rw (u) (omega (arith, w))
]

-- One that did not pass and now does.
pub count-add :
    (p q : ℕ → Bool) (n i : ℕ)
    → i < n
    → p i ≡ false
    → ((k : ℕ) → q k ≡ (if k == i then true else p k))
    → count q n ≡ suc (count p n)
count-add p q n i l e h =
    count-drop q p n i l (h i ∙ ap (λ b. if b then true else p i) (eq→== i i refl)) (λ k.
      elim (Bool-cases (k == i)) [
        | inl s ↦ rw s (ap p (==→eq k i s) ∙ e)
        | inr s ↦ rw s (sym (h k ∙ ap (λ b. if b then true else p k) s))
      ])
