-- ===== src/Print/Format/Tests.antt =====
-- Formats and what they print.
use gos_v.Common.{
  ℕ, suc, ◌+◌, ◌-◌, ◌^◌, ◌≡◌, refl, arith, List, [], ◌∷◌, ◌++◌, Outcome, ok, panic, if◌then◌else◌,
  ltb, length, some, false,
}
use gos_v.Utils.{string_length, string_to_int32, is_digit}
use gos_v.Print.{
  chars, Value, whole, real, number, lay_out, sign_text, special_text, is_negative, tmp,
  digits_loop, digits_do, digit, digits, reversed, positive,
}
use gos_v.Print.Width.{max, length-number}
use gos_v.Print.Format.{
  no_flags, unset, vsprintf, start, run, step, convert, read_spec, read_flags, flag_of, read_width,
  read_precision, skip_qualifier, skip_atoi, number_text, char_text, string_text, separated,
  Printing,
}
use gos_v.Print.Format.Decimal.{vsprintf-string_to_int32}
use gos_v.Print.Format.Ends.{vsprintf-ends}

-- Every pointer leads to the same six bytes, and every `double` is 1.05.
abbrev objects : ℕ → List ℕ
objects p = 104 ∷ 105 ∷ 0 ∷ 10 ∷ 255 ∷ 1 ∷ []

abbrev reals : ℕ → ℕ → Value
reals low high = real false 1 50000

abbrev prints_with : List ℕ → (ℕ → ℕ) → Outcome (ℕ × List ℕ × List (ℕ × ℕ))
prints_with fmt args = vsprintf objects reals args fmt

vsprintf-string_to_int32_example :
    (text : List ℕ) × (vsprintf objects reals (λ i. 4000000007) (b'%' ∷ b'u' ∷ [])
      ≡ ok (string_length text, text, []))
    × (string_to_int32 text ≡ 4000000007)
vsprintf-string_to_int32_example =
    vsprintf-string_to_int32 objects reals (λ i. 4000000007) (omega arith)

vsprintf-ends_example :
    (s : Printing) × (run objects reals
        (λ i. 3)
        (suc (length (chars "%5d%")))
        (start (chars "%5d%"))
      ≡ ok s)
    × (vsprintf objects reals (λ i. 3) (chars "%5d%")
        ≡ (if ltb (length s.out) 1024 then ok (length s.out, s.out ++ 0 ∷ [], s.stores) else panic))
vsprintf-ends_example = vsprintf-ends objects reals (λ i. 3) (chars "%5d%")

length-number_example :
    (text : List ℕ) × (number (whole 255) 16 8 unset no_flags ≡ some text)
    × (length text
        ≡ max
            (length (sign_text no_flags (whole 255))
              + length (special_text no_flags 16)
              + max (positive unset) (length (tmp no_flags 16 (whole 255))))
            (positive 8))
length-number_example = length-number (whole 255) 16 8 unset no_flags (omega arith) (omega arith)

hex_text :
    prints_with (chars "<%#06x|%-4d|%+d>") (λ i. 255)
    ≡ ok (18, chars "<0x00ff|255 |+255>" ++ 0 ∷ [], [])
unfolding vsprintf run step convert read_spec read_flags flag_of read_width read_precision
    skip_qualifier skip_atoi number_text number lay_out sign_text special_text is_negative tmp
    digits_loop digit digits reversed is_digit
hex_text = refl

negative_text : prints_with (chars "%d") (λ i. 2 ^ 32 - 12) ≡ ok (3, chars "-12" ++ 0 ∷ [], [])
unfolding hex_text
negative_text = refl

bytes_text :
    prints_with (chars "%m %r %s%c") (λ i. 65)
    ≡ ok (34, chars "68:69:00:0a:ff:01 104.105.0.10 hiA" ++ 0 ∷ [], [])
unfolding hex_text char_text string_text separated string_length
bytes_text = refl

-- The digits behind the point are not padded: 1.05 is printed as 1.50000.
real_text : prints_with (chars "%f") (λ i. 0) ≡ ok (7, chars "1.50000" ++ 0 ∷ [], [])
unfolding hex_text digits_do
real_text = refl

-- The star of a precision is taken for the conversion.
star_text : prints_with (chars "%.*d") (λ i. 5) ≡ ok (3, chars "%*d" ++ 0 ∷ [], [])
unfolding hex_text
star_text = refl
