-- ===== src/Print/Width.antt =====
-- How many characters `Number` of kernel/lib/print.c writes.
use gos_v.Common.{
  ℕ, ◌+◌, ◌-◌, ◌≤◌, ◌≡◌, refl, arith, Bool, true, false, not, ◌&&◌, ◌||◌, List, [], ◌∷◌, some, ltb,
  le→ltb, if◌then◌else◌, length, length-append, replicate, length-replicate,
}
use gos_v.Print.{Flags, Value, positive, reversed, lay_out, number, sign_text, special_text, tmp}

pub length-reversed : (cs out : List ℕ) → length (reversed cs out) ≡ length cs + length out
unfolding reversed
length-reversed [] out = omega arith
length-reversed (c ∷ cs) out = omega (arith, length-reversed cs (c ∷ out))

abbrev pub max : ℕ → ℕ → ℕ
max a b = if ltb a b then b else a

length-pad : (b : Bool) (n c : ℕ) → length (if b then replicate n c else []) ≡ (if b then n else 0)
length-pad true n c = length-replicate n c
length-pad false n c = refl

length-no_pad :
    (b : Bool) (n c : ℕ) → length (if b then [] else replicate n c) ≡ (if b then 0 else n)
length-no_pad true n c = refl
length-no_pad false n c = length-replicate n c

-- The parts of the text by the flags `zeropad` and `left`: blanks or zeros fill what is left of the
-- size.
fill_up :
    (z l : Bool) (s p t w q m : ℕ)
    → (if ltb q t then t else q) ≡ m
    → (if z || l then 0 else w - s - p - m)
        + s
        + p
        + (if z && not l then w - s - p - m else 0)
        + (m - t)
        + (t + 0)
        + (if l then w - s - p - m else 0)
      ≡ max (s + p + m) w
fill_up true true s p t w q m e = ground arith
fill_up true false s p t w q m e = ground arith
fill_up false true s p t w q m e = ground arith
fill_up false false s p t w q m e = ground arith

pub length-lay_out :
    (flags : Flags) (sign prefix tmp : List ℕ) (size precision : ℕ)
    → length (lay_out flags sign prefix tmp size precision)
      ≡ max (length sign + length prefix + max (positive precision) (length tmp)) (positive size)
unfolding lay_out
length-lay_out flags sign prefix tmp size precision =
    simp (length-append, length-replicate, length-reversed, length-pad, length-no_pad)
      (fill_up flags.zeropad flags.left (length sign) (length prefix) (length tmp) (positive size)
        (positive precision) _ refl)

-- `Number` in a base from 2 to 36 writes a text. It has as many characters as its size says, or more
-- only if the sign, the prefix and the digits, or the precision in their place, need more.
pub length-number :
    (v : Value) (base size precision : ℕ) (flags : Flags)
    → 2 ≤ base
    → base ≤ 36
    → (text : List ℕ) × (number v base size precision flags ≡ some text)
      × (length text
          ≡ max
              (length (sign_text flags v)
                + length (special_text flags base)
                + max (positive precision) (length (tmp flags base v)))
              (positive size))
unfolding number
length-number v base size precision flags h g = (
  _,
  rw (le→ltb base 2 h, le→ltb 36 base g) refl,
  length-lay_out flags (sign_text flags v) (special_text flags base) (tmp flags base v) size
      precision,
)
