-- ===== src/Common/Bitmap/Laws.antt =====
-- The operations on a bitmap as operations on its list of flags.
use gos_v.Common.{
  ℕ, zero, suc, ◌+◌, ◌*◌, ◌/◌, ◌%◌, ◌<◌, ◌≡◌, refl, sym, ap, ◌∙◌, inl, inr, Bool, true, false,
  Option, none, some, List, [], ◌∷◌, ◌++◌, arith, ◌==◌, Bool-cases, length, get_or, set,
  length-append, length-set,
}
use gos_v.Common.Bits.{has_bit, set_bit, clear_bit, bits, length-bits, bits-set_bit, bits-clear_bit}
use gos_v.Common.Bitmap.{
  first_clear, claim, release, flags, shift, or_else, first_false, set-append_left,
  set-append_right, shift-shift, first_false-lt, first_false-append,
}

abbrev halve : ℕ → ℕ → ℕ
halve zero w = w
halve (suc k) w = halve k (w / 2)

halve-suc : (k w : ℕ) → halve (suc k) w ≡ halve k w / 2
halve-suc zero w = refl
halve-suc (suc k) w = halve-suc k (w / 2)

has_bit-halve : (k w : ℕ) → has_bit w k ≡ (halve k w % 2 == 1)
unfolding has_bit
has_bit-halve zero w = refl
has_bit-halve (suc k) w = has_bit-halve k (w / 2)

halve_add : (k w : ℕ) → halve (k + 1) w ≡ halve k w / 2
halve_add k w = let e : k + 1 ≡ suc k = omega arith in ap (λ j. halve j w) e ∙ halve-suc k w

first_clear_from : (n k w : ℕ) → first_clear n k w ≡ shift k (first_false (bits n (halve k w)))
unfolding first_clear first_false bits
first_clear_from zero k w = refl
first_clear_from (suc n) k w = elim (Bool-cases (has_bit w k)) [
  | inl b ↦
      rw (b, sym (has_bit-halve k w) ∙ b, shift-shift)
        (first_clear_from n (k + 1) w
          ∙ ap (λ v. shift (k + 1) (first_false (bits n v))) (halve_add k w))
  | inr b ↦ rw (b, sym (has_bit-halve k w) ∙ b) (ap some (omega arith))
]

-- The search in one word finds the first clear one of its lowest bits.
pub first_clear_lem : (n w : ℕ) → first_clear n 0 w ≡ first_false (bits n w)
first_clear_lem n w = first_clear_from n 0 w ∙ shift_zero (first_false (bits n w))
  where
    shift_zero : (o : Option ℕ) → shift 0 o ≡ o
    shift_zero none = refl
    shift_zero (some p) = ap some (omega arith)

-- What a search leaves: the number and the words, or none where all the bits are set.
abbrev pub Claims : ℕ → ℕ → List ℕ → Option (ℕ × List ℕ) → Type 0
Claims width i ws none = first_false (flags width ws) ≡ none
Claims width i ws (some (n, ws')) =
    (p : ℕ) × (n ≡ i * width + p)
    × (first_false (flags width ws) ≡ some p)
    × (flags width ws' ≡ set (flags width ws) p true)
    × (length ws' ≡ length ws)

flags-head :
    (width w : ℕ) (ws : List ℕ) (o : Option ℕ)
    → first_clear width 0 w ≡ o
    → first_false (bits width w ++ flags width ws)
      ≡ or_else o (shift width (first_false (flags width ws)))
flags-head width w ws o e =
    first_false-append (bits width w) (flags width ws) ∙ rw (length-bits, ← first_clear_lem, e) refl

-- A new word at the head changes the flags at its front only.
flags-set_head :
    (width w k : ℕ) (ws : List ℕ)
    → k < width
    → bits width (set_bit w k) ++ flags width ws ≡ set (bits width w ++ flags width ws) k true
flags-set_head width w k ws h =
    ap (λ l. l ++ flags width ws) (bits-set_bit width w k)
    ∙ sym (
        set-append_left (bits width w) (flags width ws) k true (omega (arith, length-bits width w)))

flags-set_tail :
    (width w p : ℕ) (ws : List ℕ) (v : Bool)
    → bits width w ++ set (flags width ws) p v ≡ set (bits width w ++ flags width ws) (width + p) v
flags-set_tail width w p ws v = sym (
    ap (λ n. set (bits width w ++ flags width ws) (n + p) v) (sym (length-bits width w))
    ∙ set-append_right (bits width w) (flags width ws) p v)

Claims-cons :
    (width i w : ℕ) (ws : List ℕ) (o : Option ℕ)
    → first_clear width 0 w ≡ o
    → (r : Option (ℕ × List ℕ)) → Claims width (i + 1) ws r
    → Claims width i (w ∷ ws) (elim o [
      | some k ↦ some (i * width + k, set_bit w k ∷ ws)
      | none ↦ elim r [ some (n, ws') ↦ some (n, w ∷ ws') | none ↦ none ]
    ])
unfolding flags
Claims-cons width i w ws (some k) e r c =
    (k, refl, flags-head width w ws (some k) e, flags-set_head width w k ws k_lt, refl)
  where
    k_lt : k < width
    k_lt = omega (
      arith,
      length-bits width w,
      first_false-lt (bits width w) k (sym (first_clear_lem width w) ∙ e),
    )
Claims-cons width i w ws none e none c = flags-head width w ws none e ∙ rw c refl
Claims-cons width i w ws none e (some (n, ws')) (p, d, f, g, l) = (
  width + p,
  grind (arith, d),
  flags-head width w ws none e ∙ rw f refl,
  ap (λ fs. bits width w ++ fs) g ∙ flags-set_tail width w p ws true,
  ap suc l,
)

-- `claim` sets the first clear bit of all, and changes no other; it fails when all are set.
pub claim-Claims : (width i : ℕ) (ws : List ℕ) → Claims width i ws (claim width i ws)
unfolding claim flags first_false
claim-Claims width i [] = refl
claim-Claims width i (w ∷ ws) =
    Claims-cons width i w ws (first_clear width 0 w) refl (claim width (i + 1) ws)
      (claim-Claims width (i + 1) ws)

-- `release` clears its bit, and changes no other.
pub flags-release :
    (width : ℕ) (ws : List ℕ) (q r : ℕ)
    → q < length ws
    → r < width
    → flags width (release ws q r) ≡ set (flags width ws) (q * width + r) false
unfolding flags release
flags-release width [] q r h k = absurd (omega arith)
flags-release width (w ∷ ws) zero r h k =
    ap (λ l. l ++ flags width ws) (bits-clear_bit width w r)
    ∙ sym (
        set-append_left (bits width w) (flags width ws) r false
          (omega (arith, length-bits width w)))
    ∙ ap (λ p. set (bits width w ++ flags width ws) p false) (omega arith)
flags-release width (w ∷ ws) (suc q) r h k =
    ap (λ fs. bits width w ++ fs) (flags-release width ws q r (omega arith) k)
    ∙ flags-set_tail width w (q * width + r) ws false
    ∙ ap (λ p. set (bits width w ++ flags width ws) p false) (omega arith)

pub length-flags : (width : ℕ) (ws : List ℕ) → length (flags width ws) ≡ length ws * width
unfolding flags
length-flags width [] = omega arith
length-flags width (w ∷ ws) = omega (
  arith,
  length-append (bits width w) (flags width ws),
  length-bits width w,
  length-flags width ws,
)

module _ {ℓ} {A : Type ℓ} where
  get_or-append_left :
      (xs ys : List A) (p : ℕ) (d : A) → p < length xs → get_or (xs ++ ys) p d ≡ get_or xs p d
  get_or-append_left [] ys p d h = absurd (omega arith)
  get_or-append_left (x ∷ xs) ys zero d h = refl
  get_or-append_left (x ∷ xs) ys (suc p) d h = get_or-append_left xs ys p d (omega arith)

  get_or-append_right :
      (xs ys : List A) (p : ℕ) (d : A) → get_or (xs ++ ys) (length xs + p) d ≡ get_or ys p d
  get_or-append_right [] ys p d = ap (λ q. get_or ys q d) (omega arith)
  get_or-append_right (x ∷ xs) ys p d = ground (arith, get_or-append_right xs ys p d)

get_or-bits : (n w q : ℕ) (d : Bool) → q < n → get_or (bits n w) q d ≡ has_bit w q
unfolding bits has_bit
get_or-bits zero w q d h = absurd (omega arith)
get_or-bits (suc n) w zero d h = refl
get_or-bits (suc n) w (suc q) d h = get_or-bits n (w / 2) q d (omega arith)

-- The flag at a position is the bit of its word.
pub get_or-flags :
    (width : ℕ) (ws : List ℕ) (q r : ℕ) (d : Bool)
    → q < length ws
    → r < width
    → get_or (flags width ws) (q * width + r) d ≡ has_bit (get_or ws q 0) r
unfolding flags
get_or-flags width [] q r d h k = absurd (omega arith)
get_or-flags width (w ∷ ws) zero r d h k =
    ap (λ p. get_or (bits width w ++ flags width ws) p d) (omega arith)
    ∙ get_or-append_left (bits width w) (flags width ws) r d (omega (arith, length-bits width w))
    ∙ get_or-bits width w r d k
get_or-flags width (w ∷ ws) (suc q) r d h k =
    ap (λ p. get_or (bits width w ++ flags width ws) p d) (omega (arith, length-bits width w))
    ∙ get_or-append_right (bits width w) (flags width ws) (q * width + r) d
    ∙ get_or-flags width ws q r d (omega arith) k

pub length-release : (ws : List ℕ) (q r : ℕ) → length (release ws q r) ≡ length ws
unfolding release
length-release ws q r = length-set ws q (clear_bit (get_or ws q 0) r)
