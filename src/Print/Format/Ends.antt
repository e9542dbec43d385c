-- ===== src/Print/Format/Ends.antt =====
-- `Vsprintf` of kernel/lib/print.c ends for every format.
use gos_v.Common.{
  ℕ, zero, suc, ◌+◌, ◌-◌, ◌*◌, ◌%◌, ◌≤◌, ◌<◌, ◌^◌, ◌≡◌, refl, ap, arith, Bool, true, false, ◌||◌,
  inl, inr, List, [], ◌∷◌, ◌++◌, Option, some, none, Outcome, ok, panic, ◌==◌, ltb, leb,
  if◌then◌else◌, length, Bool-cases,
}
use gos_v.Utils.{is_digit}
use gos_v.Print.{Flags, Value}
use gos_v.Print.Format.{
  no_flags, current, next, Spec, Written, Printing, vsprintf, start, run, step, convert, read_spec,
  read_flags, flag_of, read_width, read_precision, skip_qualifier, skip_atoi,
}

length-next : (fmt : List ℕ) → length (next fmt) ≤ length fmt
length-next [] = omega arith
length-next (c ∷ fmt) = omega arith

next-lt : (fmt : List ℕ) → (current fmt == 0) ≡ false → length (next fmt) < length fmt
next-lt [] h = cc
next-lt (c ∷ fmt) h = omega arith

length-skip_atoi : (i : ℕ) (fmt : List ℕ) → length (skip_atoi i fmt).1 ≤ length fmt
unfolding skip_atoi
length-skip_atoi i [] = omega arith
length-skip_atoi i (c ∷ fmt) =
    ground (arith, length-skip_atoi ((i * 10 + c + (2 ^ 32 - 48)) % 2 ^ 32) fmt)

flags_or_stop :
    (flags : Flags) (c : ℕ) (fmt : List ℕ) (r : Option Flags)
    → ((f : Flags) → length (read_flags f fmt).1 ≤ length fmt)
    → length
        (elim r as (λ _. Flags × List ℕ) [ some f ↦ read_flags f fmt | none ↦ (flags, c ∷ fmt) ]).1
      ≤ suc (length fmt)
flags_or_stop flags c fmt none h = omega arith
flags_or_stop flags c fmt (some f) h = omega (arith, h f)

length-read_flags : (flags : Flags) (fmt : List ℕ) → length (read_flags flags fmt).1 ≤ length fmt
unfolding read_flags
length-read_flags flags [] = omega arith
length-read_flags flags (c ∷ fmt) =
    flags_or_stop flags c fmt (flag_of flags c) (λ f. length-read_flags f fmt)

-- The format from the place of a record on is no longer than `n`.
Within : ℕ → Spec → Type 0
Within n s = length s.fmt ≤ n

either : (n : ℕ) (b : Bool) (x y : Spec) → Within n x → Within n y → Within n (if b then x else y)
either n true x y p q = p
either n false x y p q = q

Leaves : ℕ → Written → Type 0
Leaves n w = length w.fmt ≤ n

either_left :
    (n : ℕ) (b : Bool) (x y : Written) → Leaves n x → Leaves n y → Leaves n (if b then x else y)
either_left n true x y p q = p
either_left n false x y p q = q

passes :
    (s : Spec) (ap : ℕ) (text : List ℕ) (stores : List (ℕ × ℕ))
    → Leaves (length s.fmt) (record { text = text; ap = ap; fmt = next s.fmt; stores = stores })
unfolding Leaves
passes s ap text stores = length-next s.fmt

stays :
    (s : Spec) (ap : ℕ) (text : List ℕ) (stores : List (ℕ × ℕ))
    → Leaves (length s.fmt) (record { text = text; ap = ap; fmt = s.fmt; stores = stores })
unfolding Leaves
stays s ap text stores = omega arith

module _ (memory : ℕ → List ℕ) (real_of : ℕ → ℕ → Value) (args : ℕ → ℕ) where
  convert-Leaves :
      (count : ℕ) (s : Spec) → Leaves (length s.fmt) (convert memory real_of args count s)
  unfolding convert
  convert-Leaves count s = search (either_left, passes, stays) depth 40 fits 4000

  width-Within :
      (flags : Flags) (ap : ℕ) (fmt : List ℕ)
      → Within (length fmt) (read_width memory real_of args flags ap fmt)
  unfolding read_width Within
  width-Within flags ap fmt = either _ (is_digit (current fmt)) _ _ (length-skip_atoi 0 fmt) (
      either _ (current fmt == b'*') _ _
        (either _ (leb (2 ^ 31) (args ap)) _ _ (length-next fmt) (length-next fmt)) (omega arith))

  precision-Within : (s : Spec) → Within (length s.fmt) (read_precision memory real_of args s)
  unfolding read_precision Within
  precision-Within s =
      either _ (current s.fmt == b'.') _ _
        (either _ (is_digit (current (next s.fmt))) _ _
          (omega (arith, length-skip_atoi 0 (next s.fmt), length-next s.fmt))
          (either _ (current (next s.fmt) == b'*') _ _ (length-next s.fmt) (length-next s.fmt)))
        (omega arith)

  qualifier-Within : (s : Spec) → Within (length s.fmt) (skip_qualifier memory real_of args s)
  unfolding skip_qualifier Within
  qualifier-Within s =
      either _ ((current s.fmt == b'h') || ((current s.fmt == b'l') || (current s.fmt == b'L'))) _ s
        (length-next s.fmt) (omega arith)

  read_spec-Within :
      (ap : ℕ) (fmt : List ℕ) → Within (length fmt) (read_spec memory real_of args ap fmt)
  unfolding read_spec Within
  read_spec-Within ap fmt =
      let (flags, rest) = read_flags no_flags fmt in
      let w = read_width memory real_of args flags ap rest in
      omega (
        arith,
        length-read_flags no_flags fmt,
        width-Within flags ap rest,
        precision-Within w,
        qualifier-Within (read_precision memory real_of args w),
      )

  -- Each round passes over a character.
  Shorter : ℕ → Option Printing → Type 0
  Shorter n none = Unit {0}
  Shorter n (some s) = length s.fmt < n

  step-Shorter : (s : Printing) → Shorter (length s.fmt) (step memory real_of args s)
  unfolding step Shorter Within Leaves
  step-Shorter s = elim (Bool-cases (current s.fmt == 0)) [
    | inl e ↦ rw e tt
    | inr e ↦ elim (Bool-cases (current s.fmt == b'%')) [
      | inl f ↦
          rw (e, f)
            (let spec = read_spec memory real_of args s.ap (next s.fmt) in
              omega (
                arith,
                next-lt s.fmt e,
                read_spec-Within s.ap (next s.fmt),
                convert-Leaves (length s.out) spec,
              ))
      | inr f ↦ rw (e, f) (next-lt s.fmt e)
    ]
  ]

  go_on :
      (n : ℕ) (s : Printing) (r : Option Printing)
      → length s.fmt < suc n
      → Shorter (length s.fmt) r
      → ((t : Printing)
          → length t.fmt < n
          → (t' : Printing) × (run memory real_of args n t ≡ ok t'))
      → (s' : Printing) × (elim r as (λ _. Outcome Printing) [
        | none ↦ ok s
        | some t ↦ run memory real_of args n t
      ]
          ≡ ok s')
  unfolding Shorter
  go_on n s none h k ih = (s, refl)
  go_on n s (some t) h k ih = ih t (omega arith)

  run-ends :
      (n : ℕ) (s : Printing)
      → length s.fmt < n
      → (s' : Printing) × (run memory real_of args n s ≡ ok s')
  unfolding run
  run-ends zero s h = absurd (omega arith)
  run-ends (suc n) s h =
      go_on n s (step memory real_of args s) h (step-Shorter s) (λ t k. run-ends n t k)

  -- `Vsprintf` ends for every format and all arguments: it returns, or panics by its assertion when the
  -- text is of 1024 characters or more; the rounds that the model gives its loop are enough.
  pub vsprintf-ends :
      (fmt : List ℕ)
      → (s : Printing) × (run memory real_of args (suc (length fmt)) (start fmt) ≡ ok s)
        × (vsprintf memory real_of args fmt ≡ (
            if ltb (length s.out) 1024
            then ok (length s.out, s.out ++ 0 ∷ [], s.stores)
            else panic))
  unfolding vsprintf
  vsprintf-ends fmt =
      let (s, e) = run-ends (suc (length fmt)) (start fmt) (omega arith) in (s, e, rw e refl)
