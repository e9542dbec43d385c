-- ===== src/Utils.antt =====
-- kernel/common/utils.c: strings, characters and memory.
-- A `char*` is the list of the bytes from where it points to the end of its object; a read past
-- the end of the object gives NUL.
pub mod Text
pub mod Memory
pub mod Decimal
mod Tests
use gos_v.Common.{
  ℕ, zero, suc, ◌+◌, ◌-◌, ◌*◌, ◌%◌, ◌^◌, Bool, true, false, ◌&&◌, ◌||◌, List, [], ◌∷◌, ◌==◌, leb,
  ltb, if◌then◌else◌,
}

unfoldable pub string_length : List ℕ → ℕ
string_length [] = 0
string_length (c ∷ s) = if c == 0 then 0 else suc (string_length s)

-- `for (i = 0; i < n; i++) if (str1[i] != str2[i]) return FALSE; return TRUE;`
same_bytes : ℕ → List ℕ → List ℕ → Bool
same_bytes zero s t = true
same_bytes (suc n) [] [] = true
same_bytes (suc n) [] (d ∷ t) = if d == 0 then same_bytes n [] t else false
same_bytes (suc n) (c ∷ s) [] = if c == 0 then same_bytes n s [] else false
same_bytes (suc n) (c ∷ s) (d ∷ t) = if c == d then same_bytes n s t else false

unfoldable pub string_equal : List ℕ → List ℕ → Bool
unfolding same_bytes string_length
string_equal str1 str2 =
    let len1 = string_length str1 in
    let len2 = string_length str2 in if len1 == len2 then same_bytes len1 str1 str2 else false

unfoldable pub string_start_with : List ℕ → List ℕ → Bool
unfolding same_bytes string_length
string_start_with str1 start =
    let len1 = string_length str1 in
    let len2 = string_length start in if ltb len1 len2 then false else same_bytes len2 str1 start

-- A `char` is signed: its value as a `u32`.
abbrev pub widen : ℕ → ℕ
widen c = if ltb c 128 then c else c + 2 ^ 32 - 256

to_int32_loop : ℕ → ℕ → List ℕ → ℕ
to_int32_loop result zero s = result
to_int32_loop result (suc n) [] = to_int32_loop ((result * 10 + 2 ^ 32 - 48) % 2 ^ 32) n []
to_int32_loop result (suc n) (c ∷ s) =
    to_int32_loop ((result * 10 + widen c + 2 ^ 32 - 48) % 2 ^ 32) n s

unfoldable pub string_to_int32 : List ℕ → ℕ
unfolding to_int32_loop string_length
string_to_int32 str = to_int32_loop 0 (string_length str) str

total_loop : ℕ → ℕ → List ℕ → ℕ
total_loop result zero s = result
total_loop result (suc n) [] = total_loop result n []
total_loop result (suc n) (c ∷ s) = total_loop ((result + widen c) % 2 ^ 32) n s

unfoldable pub string_ascii_total : List ℕ → ℕ
unfolding total_loop string_length
string_ascii_total str = total_loop 0 (string_length str) str

count_loop : ℕ → ℕ → List ℕ → ℕ → ℕ
count_loop result zero s ch = result
count_loop result (suc n) [] ch =
    count_loop (if 0 == ch then (result + 1) % 2 ^ 32 else result) n [] ch
count_loop result (suc n) (c ∷ s) ch =
    count_loop (if c == ch then (result + 1) % 2 ^ 32 else result) n s ch

unfoldable pub char_count : List ℕ → ℕ → ℕ
unfolding count_loop string_length
char_count str ch = count_loop 0 (string_length str) str ch

unfoldable pub is_digit : ℕ → Bool
is_digit c = leb b'0' c && leb c b'9'

unfoldable pub is_alpha : ℕ → Bool
is_alpha c = (leb b'a' c && leb c b'z') || (leb b'A' c && leb c b'Z')

unfoldable pub is_upper : ℕ → Bool
is_upper c = leb b'A' c && leb c b'Z'

unfoldable pub is_lower : ℕ → Bool
is_lower c = leb b'a' c && leb c b'z'

-- The bytes of memory by their addresses.
abbrev pub Bytes : Type 0
Bytes = ℕ → ℕ

abbrev pub store : Bytes → ℕ → ℕ → Bytes
store m a v x = if x == a then v else m x

-- `while (size--) *dest8++ = *src8++;`
unfoldable pub memory_copy : ℕ → ℕ → ℕ → Bytes → Bytes
memory_copy dest src zero m = m
memory_copy dest src (suc size) m = memory_copy (dest + 1) (src + 1) size (store m dest (m src))

unfoldable pub memory_set : ℕ → ℕ → ℕ → Bytes → Bytes
memory_set ptr v zero m = m
memory_set ptr v (suc size) m = memory_set (ptr + 1) v size (store m ptr v)

unfoldable pub memory_free : ℕ → ℕ → Bytes → Bytes
memory_free ptr zero m = m
memory_free ptr (suc size) m = memory_free (ptr + 1) size (store m ptr 0)
