-- ===== src/Utils/Tests.antt =====
-- The functions of kernel/common/utils.c at small inputs.
use gos_v.Common.{ℕ, ◌≡◌, refl, List, [], ◌∷◌, true, false}
use gos_v.Utils.{
  string_length, string_equal, string_start_with, string_to_int32, string_ascii_total, char_count,
}
use gos_v.Utils.Text.{text, string_start_with_iff}

-- "ab", then a byte that no string function reads.
abbrev ab : List ℕ
ab = b'a' ∷ b'b' ∷ 0 ∷ b'x' ∷ []

abbrev abc : List ℕ
abc = b'a' ∷ b'b' ∷ b'c' ∷ 0 ∷ []

lengths : (string_length ab ≡ 2) × (char_count abc b'b' ≡ 1) × (string_ascii_total ab ≡ 195)
unfolding string_length char_count string_ascii_total
lengths = (refl, refl, refl)

comparisons :
    (string_equal ab abc ≡ false)
    × (string_start_with abc ab ≡ true)
    × (string_start_with ab abc ≡ false)
unfolding string_equal string_start_with string_length
comparisons = (refl, refl, refl)

number : string_to_int32 (b'4' ∷ b'0' ∷ b'7' ∷ 0 ∷ []) ≡ 407
unfolding string_to_int32 string_length
number = refl

string_start_with_iff_example : (rest : List ℕ) × (text abc ≡ b'a' ∷ b'b' ∷ rest)
unfolding string_start_with string_length
string_start_with_iff_example = (string_start_with_iff abc ab).0 refl
