-- ===== src/Print/Digits.antt =====
-- The digits that `Number` of kernel/lib/print.c writes, and how `StringToInt32` reads them.
use gos_v.Common.{
  ℕ, zero, suc, ◌+◌, ◌-◌, ◌*◌, ◌/◌, ◌%◌, ◌≤◌, ◌<◌, ◌^◌, ◌≡◌, refl, ap, sym, ◌∙◌, arith, Bool, true,
  false, inl, inr, List, [], ◌∷◌, ◌==◌, Bool-cases, ==→eq,
}
use native.Mathlib.Omega.{pow_step}
use gos_v.Common.Small.{every, every-lt}
use gos_v.Utils.{widen}
use gos_v.Utils.Decimal.{AreDigits, fold_digits}
use gos_v.Print.{digit, digits, digits_loop, reversed}

-- The number of decimal digits, the last one first.
unfoldable pub read_back : List ℕ → ℕ
read_back [] = 0
read_back (c ∷ cs) = c - 48 + 10 * read_back cs

digit_lem : (small : Bool) (d : ℕ) → d < 10 → digit small d ≡ 48 + d
unfolding digit digits every
digit_lem true d h = ==→eq _ _ (every-lt (λ d. digit true d == 48 + d) 10 d refl h)
digit_lem false d h = ==→eq _ _ (every-lt (λ d. digit false d == 48 + d) 10 d refl h)

pub digits_loop-AreDigits : (f : ℕ) (small : Bool) (n : ℕ) → AreDigits (digits_loop f small 10 n)
unfolding digits_loop AreDigits
digits_loop-AreDigits zero small n = tt
digits_loop-AreDigits (suc f) small n =
    let d = digit_lem small (n % 10) (omega arith) in
    elim (Bool-cases (n == 0)) [
      | inl e ↦ rw e tt
      | inr e ↦ rw e (omega arith, omega arith, digits_loop-AreDigits f small (n / 10))
    ]

pub AreDigits-reversed :
    (cs out : List ℕ) → AreDigits cs → AreDigits out → AreDigits (reversed cs out)
unfolding reversed AreDigits
AreDigits-reversed [] out h g = g
AreDigits-reversed (c ∷ cs) out (a, b, h) g = AreDigits-reversed cs (c ∷ out) h (a, b, g)

half : (f n : ℕ) → n < 2 ^ suc f → n / 10 < 2 ^ f
half f n h = let e : 2 ^ suc f ≡ 2 * 2 ^ f = pow_step 2 f in omega (arith, e)

widened :
    (c r : ℕ)
    → 48 ≤ c
    → c ≤ 57
    → (r % 2 ^ 32 * 10 + widen c + 2 ^ 32 - 48) % 2 ^ 32 ≡ (c - 48 + 10 * r) % 2 ^ 32
widened c r a b = ground arith

-- All the digits are written: the number has at most as many as there are rounds.
pub read_back-digits_loop :
    (f : ℕ) (small : Bool) (n : ℕ) → n < 2 ^ f → read_back (digits_loop f small 10 n) ≡ n
unfolding digits_loop read_back
read_back-digits_loop zero small n h = omega arith
read_back-digits_loop (suc f) small n h =
    let d = digit_lem small (n % 10) (omega arith) in
    elim (Bool-cases (n == 0)) [
      | inl e ↦ rw e (sym (==→eq n 0 e))
      | inr e ↦
          let ih = read_back-digits_loop f small (n / 10) (half f n h) in
          rw (e, ih, d) (omega arith)
    ]

pub fold-reversed :
    (cs out : List ℕ)
    → AreDigits cs
    → fold_digits 0 (reversed cs out) ≡ fold_digits (read_back cs % 2 ^ 32) out
unfolding reversed fold_digits AreDigits read_back
fold-reversed [] out h = refl
fold-reversed (c ∷ cs) out (a, b, h) =
    fold-reversed cs (c ∷ out) h ∙ ap (λ acc. fold_digits acc out) (widened c (read_back cs) a b)
