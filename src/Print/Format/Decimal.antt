-- ===== src/Print/Format/Decimal.antt =====
-- `Vsprintf` with `%u`, against `StringToInt32`.
use gos_v.Common.{
  ℕ, zero, suc, ◌-◌, ◌/◌, ◌%◌, ◌≤◌, ◌<◌, ◌^◌, ◌≡◌, refl, ap, sym, ◌∙◌, arith, false, inl, inr, List,
  [], ◌∷◌, ◌++◌, some, ok, ◌==◌, ltb, lt→ltb, if◌then◌else◌, length, Bool-cases,
}
use mathlib.Core.List.{append-nil}
use gos_v.Utils.{string_length, string_to_int32, is_digit}
use gos_v.Utils.Decimal.{AreDigits, fold_digits, string_to_int32-fold, string_length-AreDigits}
use gos_v.Print.{
  Flags, Value, whole, digits_loop, reversed, tmp, number, lay_out, sign_text, special_text,
  is_negative,
}
use gos_v.Print.Digits.{
  read_back, read_back-digits_loop, digits_loop-AreDigits, AreDigits-reversed, fold-reversed,
}
use gos_v.Print.Width.{length-reversed}
use gos_v.Print.Format.{
  no_flags, unset, vsprintf, run, step, convert, read_spec, read_flags, flag_of, read_width,
  read_precision, skip_qualifier, number_text, text_of,
}

-- The digits of a number, the last one first.
unfoldable decimal : ℕ → List ℕ
decimal n = tmp no_flags 10 (whole n)

decimal-AreDigits : (n : ℕ) → AreDigits (decimal n)
unfolding decimal tmp is_negative AreDigits
decimal-AreDigits n = elim (Bool-cases (n == 0)) [
  | inl e ↦ rw e (omega arith, omega arith, tt)
  | inr e ↦ rw e (digits_loop-AreDigits 32 false n)
]

read_back-decimal : (n : ℕ) → n < 2 ^ 32 → read_back (decimal n) ≡ n
unfolding decimal tmp is_negative read_back
read_back-decimal n h = elim (Bool-cases (n == 0)) [
  | inl e ↦ rw e (ground arith)
  | inr e ↦ rw e (read_back-digits_loop 32 false n h)
]

length-digits_loop : (f : ℕ) (n : ℕ) → length (digits_loop f false 10 n) ≤ f
unfolding digits_loop
length-digits_loop zero n = omega arith
length-digits_loop (suc f) n = ground (arith, length-digits_loop f (n / 10))

length-decimal : (n : ℕ) → length (decimal n) ≤ 32
unfolding decimal tmp is_negative
length-decimal n = ground (arith, length-digits_loop 32 n)

no_zeros : (n : ℕ) → (if ltb 0 n then n else 0) - n ≡ 0
no_zeros n = ground arith

no_blanks : (m : ℕ) → 0 - 0 - 0 - m ≡ 0
no_blanks m = omega arith

-- With no flags, no size and no precision just the digits are written.
bare : (t : List ℕ) → lay_out no_flags [] [] t unset unset ≡ reversed t []
unfolding lay_out
bare t =
    rw (no_blanks (if ltb 0 (length t) then length t else 0), no_zeros (length t)) (append-nil _)

number-decimal : (n : ℕ) → number (whole n) 10 unset unset no_flags ≡ some (reversed (decimal n) [])
unfolding number lay_out sign_text special_text is_negative decimal
number-decimal n = ap some (bare (decimal n))

number_text-some :
    (v : Value) (base size precision : ℕ) (flags : Flags) (text : List ℕ)
    → number v base size precision flags ≡ some text
    → number_text v base size precision flags ≡ text
unfolding number_text
number_text-some v base size precision flags text e = ap text_of e

prints :
    (memory : ℕ → List ℕ) (real_of : ℕ → ℕ → Value) (args : ℕ → ℕ) (text : List ℕ)
    → number (whole (args 0)) 10 unset unset no_flags ≡ some text
    → length text < 1024
    → vsprintf memory real_of args (b'%' ∷ b'u' ∷ []) ≡ ok (length text, text ++ 0 ∷ [], [])
unfolding vsprintf run step convert read_spec read_flags flag_of read_width read_precision
    skip_qualifier is_digit
prints memory real_of args text e l =
    rw
      (
        number_text-some (whole (args 0)) 10 unset unset no_flags text e,
        lt→ltb (length text) 1024 l,
      )
      refl

no_digits : AreDigits []
unfolding AreDigits
no_digits = tt

small : (n : ℕ) → n < 2 ^ 32 → fold_digits (read_back (decimal n) % 2 ^ 32) [] ≡ n
unfolding fold_digits
small n h = let e = read_back-decimal n h in rw e (omega arith)

-- What `Vsprintf` writes for `%u` is read back by `StringToInt32`: for every number of 32 bits the
-- text that is returned has the length that is returned, and its value is the number.
pub vsprintf-string_to_int32 :
    (memory : ℕ → List ℕ) (real_of : ℕ → ℕ → Value) (args : ℕ → ℕ)
    → args 0 < 2 ^ 32
    → (text : List ℕ) × (vsprintf memory real_of args (b'%' ∷ b'u' ∷ [])
        ≡ ok (string_length text, text, []))
      × (string_to_int32 text ≡ args 0)
vsprintf-string_to_int32 memory real_of args h =
    let n = args 0 in
    let cs = reversed (decimal n) [] in
    let d = AreDigits-reversed (decimal n) [] (decimal-AreDigits n) no_digits in
    let l = length-reversed (decimal n) [] in
    let k = length-decimal n in
    (
      cs ++ 0 ∷ [],
      prints memory real_of args cs (number-decimal n) (omega (arith, l, k))
          ∙ ap (λ m. ok (m, cs ++ 0 ∷ [], [])) (sym (string_length-AreDigits cs d)),
      string_to_int32-fold cs d ∙ fold-reversed (decimal n) [] (decimal-AreDigits n) ∙ small n h,
    )
