-- ===== src/Common/Bitmap.antt =====
-- Bitmaps: the search for the first clear bit of an array of words, against a list of flags.
pub mod Laws
use Prim.Native.Nat.{ℕ, zero, suc, ◌+◌, ◌-◌, ◌*◌, ◌/◌, ◌%◌, ◌<◌, ◌≤◌}
use mathlib.Core.Path.{◌≡◌, refl, ap, ap₂, ◌∙◌, sym}
use mathlib.Core.Logic.{◌≢◌, ◌⊎◌, inl, inr}
use mathlib.Core.Bool.{Bool, true, false}
use mathlib.Core.Option.{Option, none, some}
use mathlib.Core.List.{List, [], ◌∷◌, ◌++◌}
use native.Mathlib.Omega.{arith}
use gos_v.Common.Tests.{◌==◌, if◌then◌else◌, Bool-cases}
use gos_v.Common.Lists.{length, set, get_or, length-append, length-set}
use gos_v.Common.Bits.{has_bit, set_bit, clear_bit, bits, length-bits, bits-set_bit, bits-clear_bit}

-- `for (; n rounds; k++) if ((w & (1 << k)) == 0) return k;`
unfoldable pub first_clear : ℕ → ℕ → ℕ → Option ℕ
first_clear zero k w = none
first_clear (suc n) k w = let rest = first_clear n (k + 1) w in if has_bit w k then rest else some k

-- The loop over the words from word `i` on: it sets the first clear bit, and returns its number and
-- the words as they are then.
unfoldable pub claim : ℕ → ℕ → List ℕ → Option (ℕ × List ℕ)
claim width i [] = none
claim width i (w ∷ ws) =
    let rest = claim width (i + 1) ws in
    elim (first_clear width 0 w) [
      | some k ↦ some (i * width + k, set_bit w k ∷ ws)
      | none ↦ elim rest [ some (n, ws') ↦ some (n, w ∷ ws') | none ↦ none ]
    ]

-- The word that has the bit is written back with the bit cleared.
unfoldable pub release : List ℕ → ℕ → ℕ → List ℕ
release words word bit = set words word (clear_bit (get_or words word 0) bit)

-- All the bits in order.
unfoldable pub flags : ℕ → List ℕ → List Bool
flags width [] = []
flags width (w ∷ ws) = bits width w ++ flags width ws

abbrev pub shift : ℕ → Option ℕ → Option ℕ
shift k none = none
shift k (some p) = some (k + p)

abbrev pub or_else : Option ℕ → Option ℕ → Option ℕ
or_else (some p) r = some p
or_else none r = r

-- The position of the first clear flag.
unfoldable pub first_false : List Bool → Option ℕ
first_false [] = none
first_false (true ∷ fs) = shift 1 (first_false fs)
first_false (false ∷ fs) = some 0

module _ {ℓ} {A : Type ℓ} where
  pub set-append_left :
      (xs ys : List A) (p : ℕ) (v : A) → p < length xs → set (xs ++ ys) p v ≡ set xs p v ++ ys
  set-append_left [] ys p v h = absurd (omega arith)
  set-append_left (x ∷ xs) ys zero v h = refl
  set-append_left (x ∷ xs) ys (suc p) v h =
      ap (λ l. x ∷ l) (set-append_left xs ys p v (omega arith))

  pub set-append_right :
      (xs ys : List A) (p : ℕ) (v : A) → set (xs ++ ys) (length xs + p) v ≡ xs ++ set ys p v
  set-append_right [] ys p v = ap (λ q. set ys q v) (omega arith)
  set-append_right (x ∷ xs) ys p v = ground (arith, set-append_right xs ys p v)

pub shift-some :
    (k : ℕ) (o : Option ℕ) (p : ℕ) → shift k o ≡ some p → (q : ℕ) × (o ≡ some q) × (p ≡ k + q)
shift-some k none p h = cc
shift-some k (some q) p h = (q, refl, ground arith)

pub shift-shift : (j k : ℕ) (o : Option ℕ) → shift j (shift k o) ≡ shift (j + k) o
shift-shift j k none = refl
shift-shift j k (some p) = ap some (omega arith)

pub first_false-lt : (fs : List Bool) (p : ℕ) → first_false fs ≡ some p → p < length fs
unfolding first_false
first_false-lt [] p h = cc
first_false-lt (false ∷ fs) p h = ground arith
first_false-lt (true ∷ fs) p h =
    let (q, e, d) = shift-some 1 (first_false fs) p h in omega (arith, first_false-lt fs q e, d)

-- The first clear flag is clear, and all before it are set.
pub first_false_lem :
    (fs : List Bool) (p : ℕ)
    → first_false fs ≡ some p
    → (get_or fs p true ≡ false) × ((q : ℕ) → q < p → get_or fs q false ≡ true)
unfolding first_false
first_false_lem [] p h = cc
first_false_lem (false ∷ fs) p h =
    let e : p ≡ 0 = ground arith in (rw e refl, λ q l. absurd (omega arith))
first_false_lem (true ∷ fs) p h =
    let (n, e, d) = shift-some 1 (first_false fs) p h in
    let d' : p ≡ suc n = omega (arith, d) in
    let (here, before) = first_false_lem fs n e in
    (rw d' here, λ q l. later q (λ (r : ℕ) (k : r < n). before r k) (omega (arith, d')))
  where
    later :
        (q : ℕ) {n : ℕ}
        → ((r : ℕ) → r < n → get_or fs r false ≡ true)
        → q < suc n
        → get_or (true ∷ fs) q false ≡ true
    later zero before l = refl
    later (suc q) before l = before q (omega arith)

-- None is clear: all are set.
pub first_false-none :
    (fs : List Bool) → first_false fs ≡ none → (q : ℕ) → q < length fs → get_or fs q false ≡ true
unfolding first_false
first_false-none [] h q l = absurd (omega arith)
first_false-none (false ∷ fs) h q l = cc
first_false-none (true ∷ fs) h zero l = refl
first_false-none (true ∷ fs) h (suc q) l =
    first_false-none fs (go (first_false fs) h) q (omega arith)
  where
    go : (o : Option ℕ) → shift 1 o ≡ none → o ≡ none
    go none e = refl
    go (some p) e = cc

pub first_false-append :
    (xs ys : List Bool)
    → first_false (xs ++ ys) ≡ or_else (first_false xs) (shift (length xs) (first_false ys))
unfolding first_false
first_false-append [] ys = go (first_false ys)
  where
    go : (o : Option ℕ) → o ≡ shift 0 o
    go none = refl
    go (some p) = ap some (omega arith)
first_false-append (false ∷ xs) ys = refl
first_false-append (true ∷ xs) ys =
    rw (first_false-append xs ys) (go (first_false xs) (first_false ys))
  where
    go :
        (o r : Option ℕ)
        → shift 1 (or_else o (shift (length xs) r))
          ≡ or_else (shift 1 o) (shift (suc (length xs)) r)
    go (some p) r = refl
    go none none = refl
    go none (some p) = ap some (omega arith)
