-- ===== src/Fs/Path/Names.antt =====
-- Searches of kernel/fs/fs.c depend on the text of a name only.
use gos_v.Common.{
  ℕ, zero, suc, ◌+◌, ◌<◌, ◌≤◌, ◌≡◌, refl, ap, sym, ◌∙◌, arith, Bool, true, false, ne→==, List, [],
  ◌∷◌, length, get_or, none, some, ◌==◌, if◌then◌else◌,
}
use gos_v.Common.Search.{first_some}
use gos_v.Utils.{Bytes, string_equal}
use gos_v.Utils.Text.{text, string_equal_iff}
use gos_v.Fs.BitMap.{Blocks, Gfs, with_index}
use gos_v.Fs.Inode.{DiskInode, ft_directory, block_count, read_disk_inode}
use gos_v.Fs.Directory.{
  bytes_from, entry_name, entry_inode_id, find_in_block, find_entry, found_id,
  find_inode_id_by_name_from_directory,
}

both_ways : (b c : Bool) → (b ≡ true → c ≡ true) → (c ≡ true → b ≡ true) → b ≡ c
both_ways true c f g = sym (f refl)
both_ways false true f g = g refl
both_ways false false f g = refl

pub string_equal-text :
    (s s' t t' : List ℕ)
    → text s ≡ text s'
    → text t ≡ text t'
    → string_equal s t ≡ string_equal s' t'
string_equal-text s s' t t' e f =
    both_ways _ _ (λ h. (string_equal_iff s' t').1 (sym e ∙ (string_equal_iff s t).0 h ∙ f))
      (λ h. (string_equal_iff s t).1 (e ∙ (string_equal_iff s' t').0 h ∙ sym f))

find_entry-text :
    (disk : Blocks) (inode : DiskInode) (n n' : List ℕ)
    → text n ≡ text n'
    → find_entry disk inode n ≡ find_entry disk inode n'
unfolding find_entry find_in_block
find_entry-text disk inode n n' e i =
    first_some
      (λ k. with_index k (
        first_some
          (λ j.
            if string_equal-text (entry_name (disk (inode.direct_block k)) j)
              (entry_name (disk (inode.direct_block k)) j) n n' refl e i
            then some (j, entry_inode_id (disk (inode.direct_block k)) j)
            else none)
          16 0))
      (block_count inode.size) 0

pub find_inode_id-text :
    (fs : Gfs) (disk : Blocks) (id : ℕ) (n n' : List ℕ)
    → text n ≡ text n'
    → find_inode_id_by_name_from_directory fs disk id n
      ≡ find_inode_id_by_name_from_directory fs disk id n'
unfolding find_inode_id_by_name_from_directory
find_inode_id-text fs disk id n n' e i =
    if string_equal-text n n' [] [] e refl i
    then 0
    else if (read_disk_inode fs disk id).file_type == ft_directory
    then found_id (find_entry-text disk (read_disk_inode fs disk id) n n' e i)
    else 0

-- A name: characters other than NUL and the slash.
unfoldable pub IsName : List ℕ → Type 0
IsName [] = Unit
IsName (c ∷ w) = (0 < c) × ¬ (c ≡ b'/') × IsName w

pub text-IsName : (w : List ℕ) → IsName w → text w ≡ w
unfolding IsName
text-IsName [] p = refl
text-IsName (c ∷ w) (p, q, r) =
    rw (ne→== c 0 (λ e. omega (arith, e, p))) (ap (λ l. c ∷ l) (text-IsName w r))

-- A name in a buffer.
pub text-bytes_from :
    (buffer : Bytes) (w : List ℕ) (i n : ℕ)
    → IsName w
    → length w < n
    → ((j : ℕ) → j ≤ length w → buffer (i + j) ≡ get_or w j 0)
    → text (bytes_from buffer i n) ≡ w
unfolding bytes_from IsName
text-bytes_from buffer w i zero p l h = absurd (omega (arith, l))
text-bytes_from buffer [] i (suc n) p l h =
    let z : i ≡ i + 0 = omega arith in rw (ap buffer z ∙ h 0 (omega arith)) refl
text-bytes_from buffer (c ∷ w) i (suc n) (p, q, r) l h =
    let z : i ≡ i + 0 = omega arith in
    let e = ap buffer z ∙ h 0 (omega arith) in
    let rest = text-bytes_from buffer w (i + 1) n r (omega (arith, l)) (λ j x.
      let y : i + 1 + j ≡ i + suc j = omega arith in ap buffer y ∙ h (suc j) (omega (arith, x))) in
    rw (ne→== (buffer i) 0 (λ k. omega (arith, k, e, p))) ((λ k. e k ∷ rest k))
