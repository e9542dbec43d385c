-- ===== src/Utils/Text.antt =====
-- What the string tests of kernel/common/utils.c say of the texts before the NUL.
use gos_v.Common.{
  ℕ, zero, suc, ◌+◌, ◌≤◌, ◌≡◌, ◌↔◌, refl, ap, sym, ◌∙◌, true, List, [], ◌∷◌, ◌++◌, arith, ◌==◌, ◌<◌,
  ne→==, eq→==, if◌then◌else◌, length, length-append, ◌%◌, ◌^◌,
}
use mathlib.Core.List.{append-nil}
use gos_v.Utils.{
  string_length, same_bytes, string_equal, string_start_with, widen, total_loop, string_ascii_total,
  count_loop, char_count,
}

-- The bytes before the first NUL.
abbrev pub text : List ℕ → List ℕ
text [] = []
text (c ∷ s) = if c == 0 then [] else c ∷ text s

pub string_length-text : (s : List ℕ) → string_length s ≡ length (text s)
unfolding string_length
string_length-text [] = refl
string_length-text (c ∷ s) = ground (arith, string_length-text s)

text-nil : (s : List ℕ) → string_length s ≡ 0 → text s ≡ []
unfolding string_length
text-nil [] h = refl
text-nil (c ∷ s) h = ground arith

-- The comparing loop, run over the length of the second text.
same_bytes→prefix :
    (n : ℕ) (s t : List ℕ)
    → string_length t ≡ n
    → n ≤ string_length s
    → same_bytes n s t ≡ true
    → (rest : List ℕ) × (text s ≡ text t ++ rest)
unfolding same_bytes string_length
same_bytes→prefix zero s t k h e = (text s, rw (text-nil t k))
same_bytes→prefix (suc n) s [] k h e = absurd (omega arith)
same_bytes→prefix (suc n) [] (d ∷ t) k h e = absurd (omega arith)
same_bytes→prefix (suc n) (c ∷ s) (d ∷ t) k h e =
    let (rest, p) = same_bytes→prefix n s t (ground arith) (ground arith) (ground arith) in
    (rest, ground arith)

prefix→same_bytes :
    (s t rest : List ℕ) → text s ≡ text t ++ rest → same_bytes (string_length t) s t ≡ true
unfolding same_bytes string_length
prefix→same_bytes s [] rest h = refl
prefix→same_bytes [] (d ∷ t) rest h = ground arith
prefix→same_bytes (c ∷ s) (d ∷ t) rest h = ground (arith, prefix→same_bytes s t rest)

length-rest :
    (s t rest : List ℕ) → text s ≡ text t ++ rest → string_length t + length rest ≡ string_length s
length-rest s t rest h =
    omega
      (arith, string_length-text s, string_length-text t, length-append (text t) rest, ap length h)

-- `StringStartWith` holds exactly when the first text is the second with something behind it.
pub string_start_with_iff :
    (s t : List ℕ) → (string_start_with s t ≡ true) ↔ ((rest : List ℕ) × (text s ≡ text t ++ rest))
unfolding string_start_with
string_start_with_iff s t = (
  (λ e. same_bytes→prefix (string_length t) s t refl (ground arith) (ground arith)),
  (λ (rest, p). ground (arith, prefix→same_bytes s t rest, length-rest s t rest)),
)

nil_of_length : (xs : List ℕ) → length xs ≡ 0 → xs ≡ []
nil_of_length [] h = refl
nil_of_length (x ∷ xs) h = absurd (omega arith)

-- `StringEqual` holds exactly when the two texts are equal.
pub string_equal_iff : (s t : List ℕ) → (string_equal s t ≡ true) ↔ (text s ≡ text t)
unfolding string_equal
string_equal_iff s t = (
  (λ e.
      let (rest, p) = same_bytes→prefix (string_length t) s t refl (ground arith) (ground arith) in
      let none_left : rest ≡ [] = nil_of_length rest (ground (arith, length-rest s t rest)) in
      p ∙ ap (λ r. text t ++ r) none_left ∙ append-nil (text t)),
  (λ p.
      let q : text s ≡ text t ++ [] = p ∙ sym (append-nil (text t)) in
      ground (arith, prefix→same_bytes s t [] q, length-rest s t [] q)),
)

-- The sum of the characters depends on the text only.
total_loop-text :
    (s : List ℕ) (r : ℕ)
    → total_loop r (string_length s) s ≡ total_loop r (length (text s)) (text s)
unfolding total_loop string_length
total_loop-text [] r = refl
total_loop-text (c ∷ s) r = ground (arith, total_loop-text s ((r + widen c) % 2 ^ 32))

pub string_ascii_total-text :
    (s t : List ℕ) → text s ≡ text t → string_ascii_total s ≡ string_ascii_total t
unfolding string_ascii_total
string_ascii_total-text s t e =
    total_loop-text s 0 ∙ ap (λ u. total_loop 0 (length u) u) e ∙ sym (total_loop-text t 0)

string_length-below : (s : List ℕ) → string_length s ≤ length s
unfolding string_length
string_length-below [] = omega arith
string_length-below (c ∷ s) = ground (arith, string_length-below s)

count_loop-positive :
    (result n : ℕ) (s : List ℕ) (ch : ℕ)
    → 0 < result
    → result + n < 2 ^ 32
    → 0 < count_loop result n s ch
unfolding count_loop
count_loop-positive result zero s ch p l = p
count_loop-positive result (suc n) [] ch p l =
    count_loop-positive (if 0 == ch then (result + 1) % 2 ^ 32 else result) n [] ch
      (ground (arith, p, l)) (ground (arith, p, l))
count_loop-positive result (suc n) (c ∷ s) ch p l =
    count_loop-positive (if c == ch then (result + 1) % 2 ^ 32 else result) n s ch
      (ground (arith, p, l)) (ground (arith, p, l))

-- A text that begins with a character has it.
pub char_count-first : (c : ℕ) (s : List ℕ) → 0 < c → length s < 2 ^ 31 → 0 < char_count (c ∷ s) c
unfolding char_count string_length count_loop
char_count-first c s p l =
    let k = string_length-below s in
    rw (ne→== c 0 (λ e. omega (arith, e, p))) (
      rw (eq→== c c refl, count_loop)
        (count_loop-positive 1 (string_length s) s c (omega arith) (omega (arith, k, l))))
