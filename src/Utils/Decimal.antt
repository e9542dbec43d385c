-- ===== src/Utils/Decimal.antt =====
-- What `StringToInt32` of kernel/common/utils.c makes of decimal digits.
use gos_v.Common.{ℕ, ◌+◌, ◌-◌, ◌*◌, ◌%◌, ◌≤◌, ◌^◌, ◌≡◌, refl, arith, List, [], ◌∷◌, ◌++◌, length}
use gos_v.Utils.{string_length, widen, to_int32_loop, string_to_int32}

-- Characters from `0` to `9`.
unfoldable pub AreDigits : List ℕ → Type 0
AreDigits [] = Unit {0}
AreDigits (c ∷ cs) = (48 ≤ c) × (c ≤ 57) × AreDigits cs

-- The reading of characters up to the NUL.
unfoldable pub fold_digits : ℕ → List ℕ → ℕ
fold_digits acc [] = acc
fold_digits acc (c ∷ cs) = fold_digits ((acc * 10 + widen c + 2 ^ 32 - 48) % 2 ^ 32) cs

pub string_length-AreDigits :
    (cs : List ℕ) → AreDigits cs → string_length (cs ++ 0 ∷ []) ≡ length cs
unfolding string_length AreDigits
string_length-AreDigits [] h = refl
string_length-AreDigits (c ∷ cs) (a, b, h) = ground (arith, string_length-AreDigits cs h)

loop-fold :
    (acc : ℕ) (cs rest : List ℕ) → to_int32_loop acc (length cs) (cs ++ rest) ≡ fold_digits acc cs
unfolding to_int32_loop fold_digits
loop-fold acc [] rest = refl
loop-fold acc (c ∷ cs) rest = loop-fold ((acc * 10 + widen c + 2 ^ 32 - 48) % 2 ^ 32) cs rest

pub string_to_int32-fold :
    (cs : List ℕ) → AreDigits cs → string_to_int32 (cs ++ 0 ∷ []) ≡ fold_digits 0 cs
unfolding string_to_int32
string_to_int32-fold cs h = rw (string_length-AreDigits cs h) (loop-fold 0 cs (0 ∷ []))
