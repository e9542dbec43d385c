-- ===== src/User/Stdlib.antt =====
-- user/stdlib.c: strings and memory of the user programs.
use gos_v.Common.{
  ℕ, zero, suc, ◌+◌, ◌<◌, ◌≤◌, ◌≡◌, refl, ap, ◌∙◌, ◌⊎◌, inl, arith, ◌&&◌, List, [], ◌∷◌, Option,
  ◌==◌, leb, ltb, if◌then◌else◌,
}
use gos_v.Common.Search.{first_from}
use gos_v.Utils.{Bytes, store}

-- `strlen` of a string in an array: `none` when the array of `size` bytes has no end of a string.
unfoldable pub strlen : Bytes → ℕ → Option ℕ
strlen str size = first_from (λ i. str i == 0) size 0

-- `strcmp` of a string in memory and a literal: the two characters whose difference is returned.
unfoldable pub strcmp : Bytes → ℕ → List ℕ → ℕ × ℕ
strcmp m str1 [] = (m str1, 0)
strcmp m str1 (c ∷ str2) =
    let rest = strcmp m (str1 + 1) str2 in
    if m str1 == 0 then (0, c) else (if m str1 == c then rest else (m str1, c))

unfoldable pub memset : ℕ → ℕ → ℕ → Bytes → Bytes
memset ptr value zero m = m
memset ptr value (suc num) m = memset (ptr + 1) value num (store m ptr value)

-- `strcpy`, which copies `size` bytes.
unfoldable pub strcpy : ℕ → Bytes → ℕ → Bytes → Bytes
strcpy dst src zero m = m
strcpy dst src (suc size) m = strcpy (dst + 1) (λ i. src (i + 1)) size (store m dst (src 0))

pub memset_lem :
    (ptr v num : ℕ) (m : Bytes) (a : ℕ)
    → memset ptr v num m a ≡ (if leb ptr a && ltb a (ptr + num) then v else m a)
unfolding memset
memset_lem ptr v zero m a = ground arith
memset_lem ptr v (suc n) m a = ground (arith, memset_lem (ptr + 1) v n (store m ptr v) a)

pub strcpy_outside :
    (dst : ℕ) (src : Bytes) (size : ℕ) (m : Bytes) (a : ℕ)
    → (a < dst) ⊎ (dst + size ≤ a)
    → strcpy dst src size m a ≡ m a
unfolding strcpy
strcpy_outside dst src zero m a h = refl
strcpy_outside dst src (suc n) m a h =
    let e =
      strcpy_outside (dst + 1) (λ i. src (i + 1)) n (store m dst (src 0)) a (ground (arith, h)) in
    e ∙ ground (arith, h)

-- The bytes of a copy, by their place in it.
pub strcpy_inside :
    (dst : ℕ) (src : Bytes) (size : ℕ) (m : Bytes) (j a : ℕ)
    → j < size
    → a ≡ dst + j
    → strcpy dst src size m a ≡ src j
unfolding strcpy
strcpy_inside dst src zero m j a h e = absurd (omega arith)
strcpy_inside dst src (suc n) m zero a h e =
    strcpy_outside (dst + 1) (λ i. src (i + 1)) n (store m dst (src 0)) a (inl (omega (arith, e)))
    ∙ ground (arith, e)
strcpy_inside dst src (suc n) m (suc j) a h e =
    let q : j + 1 ≡ suc j = omega arith in
    strcpy_inside (dst + 1) (λ i. src (i + 1)) n (store m dst (src 0)) j a (omega arith)
      (omega (arith, e))
    ∙ ap src q
