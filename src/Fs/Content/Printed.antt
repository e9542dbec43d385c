-- ===== src/Fs/Content/Printed.antt =====
-- What kernel/fs/fs.c prints of a file of one block.
use gos_v.Common.{
  ℕ, zero, suc, ◌+◌, ◌-◌, ◌<◌, ◌≡◌, refl, ap, sym, ◌∙◌, subst, inl, inr, arith, true, Bool-cases,
  ne→==, eq→==, List, [], ◌∷◌, length, none, some, ◌==◌, if◌then◌else◌, get_or,
}
use gos_v.Utils.{string_length}
use gos_v.Fs.BitMap.{Blocks, Gfs}
use gos_v.Fs.Inode.{ft_file, block_count, read_disk_inode}
use gos_v.Fs.Content.{
  end_of_file, with_content, printed, print_bytes, print_blocks, prints, print_file_content,
}

-- The line feeds of a text.
abbrev pub lines : List ℕ → ℕ
lines [] = 0
lines (c ∷ cs) = (if c == b'\n' then 1 else 0) + lines cs

-- A text that a file can have: neither the end of a string nor the end of the file is in it.
unfoldable pub IsContent : List ℕ → Type 0
IsContent [] = Unit
IsContent (c ∷ cs) = (0 < c) × ¬ (c ≡ end_of_file) × IsContent cs

pub string_length-IsContent : (cs : List ℕ) → IsContent cs → string_length cs ≡ length cs
unfolding string_length IsContent
string_length-IsContent [] p = refl
string_length-IsContent (c ∷ cs) (p, q, r) =
    rw (ne→== c 0 (λ e. omega (arith, e, p))) (ap suc (string_length-IsContent cs r))

print_bytes-IsContent :
    (cs : List ℕ) (rounds : ℕ) (buffer : ℕ → ℕ) (j n : ℕ)
    → IsContent cs
    → length cs < rounds
    → lines cs < n
    → ((i : ℕ) → i < length cs → buffer (j + i) ≡ get_or cs i 0)
    → buffer (j + length cs) ≡ end_of_file
    → print_bytes rounds buffer j n ≡ (cs, none)
unfolding print_bytes IsContent
print_bytes-IsContent cs zero buffer j n p l m h e = absurd (omega (arith, l))
print_bytes-IsContent [] (suc rounds) buffer j n p l m h e =
    let q : j ≡ j + 0 = omega arith in rw (eq→== (buffer j) end_of_file (ap buffer q ∙ e)) refl
print_bytes-IsContent (c ∷ cs) (suc rounds) buffer j n (p, q, r) l m h e =
    let k : buffer j ≡ c = let z : j ≡ j + 0 = omega arith in ap buffer z ∙ h 0 (omega arith) in
    let next : (i : ℕ) → i < length cs → buffer (j + 1 + i) ≡ get_or cs i 0 = λ i x.
      let z : j + 1 + i ≡ j + suc i = omega arith in ap buffer z ∙ h (suc i) (omega (arith, x)) in
    let last : buffer (j + 1 + length cs) ≡ end_of_file =
      let z : j + 1 + length cs ≡ j + suc (length cs) = omega arith in ap buffer z ∙ e in
    let x = ne→== (buffer j) end_of_file (λ z. q (sym k ∙ z)) in
    elim (Bool-cases (c == b'\n')) [
      | inl y ↦
          let m' = subst (λ b. (if b then 1 else 0) + lines cs < n) y m in
          rw (x, ap (λ v. v == b'\n') k ∙ y, ne→== n 1 (λ z. omega (arith, z, m')))
            (ap (printed (buffer j)) (
                print_bytes-IsContent cs rounds buffer (j + 1) (n - 1) r (omega (arith, l))
                  (omega (arith, m')) next last)
              ∙ ap (λ v. (v ∷ cs, none)) k)
      | inr y ↦
          let m' = subst (λ b. (if b then 1 else 0) + lines cs < n) y m in
          rw (x, ap (λ v. v == b'\n') k ∙ y)
            (ap (printed (buffer j)) (
                print_bytes-IsContent cs rounds buffer (j + 1) n r (omega (arith, l))
                  (omega (arith, m')) next last)
              ∙ ap (λ v. (v ∷ cs, none)) k)
    ]

pub with_content-chars :
    (buffer : ℕ → ℕ) (content : List ℕ) (i : ℕ)
    → IsContent content
    → i < length content
    → with_content buffer 0 content (0 + i) ≡ get_or content i 0
unfolding with_content
with_content-chars buffer content i p l =
    let k = string_length-IsContent content p in
    let z : 0 + i - 0 ≡ i = omega arith in ground (arith, k, l) ∙ ap (λ v. get_or content v 0) z

pub with_content-end :
    (buffer : ℕ → ℕ) (content : List ℕ)
    → IsContent content
    → with_content buffer 0 content (0 + length content) ≡ end_of_file
unfolding with_content
with_content-end buffer content p = let k = string_length-IsContent content p in ground (arith, k)

-- A file of one block prints what the block has.
pub printed_block :
    (fs : Gfs) (disk : Blocks) (id n : ℕ) (content : List ℕ)
    → IsContent content
    → length content < 512
    → lines content < n
    → (read_disk_inode fs disk id).file_type ≡ ft_file
    → (read_disk_inode fs disk id).size ≡ 1 + length content
    → ((i : ℕ)
        → i < length content
        → disk ((read_disk_inode fs disk id).direct_block 0) (0 + i) ≡ get_or content i 0)
    → disk ((read_disk_inode fs disk id).direct_block 0) (0 + length content) ≡ end_of_file
    → print_file_content fs disk id n ≡ prints (content, some true)
unfolding print_file_content print_blocks
printed_block fs disk id n content p l m t s h e =
    let inode = read_disk_inode fs disk id in
    let one : block_count inode.size ≡ 1 = omega (arith, s, l) in
    rw
      (
        eq→== inode.file_type ft_file t,
        ne→== n 0 (λ q. omega (arith, q, m)),
        one,
        print_bytes-IsContent content 512 (disk (inode.direct_block 0)) 0 n p l m h e,
      )
      refl
