-- ===== src/Fs/Directory/Find.antt =====
-- What the search of a directory by kernel/fs/fs.c finds.
use gos_v.Common.{
  ℕ, ◌<◌, ◌≡◌, refl, ap, sym, subst, ◌⊎◌, inl, inr, arith, Bool, true, false, List, [], Option,
  none, some, if◌then◌else◌,
}
use gos_v.Common.Search.{FirstSome, first_some-FirstSome}
use gos_v.Utils.{string_equal}
use gos_v.Fs.BitMap.{Blocks, Gfs}
use gos_v.Fs.BitMap.Find.{with_index-none, with_index-some}
use gos_v.Fs.Inode.{DiskInode, ft_directory, block_count, read_disk_inode}
use gos_v.Fs.Directory.{
  entry_name, entry_inode_id, find_in_block, find_entry, found_id,
  find_inode_id_by_name_from_directory,
}

-- Whether the entry has the name.
abbrev pub matches : Blocks → DiskInode → List ℕ → ℕ → ℕ → Bool
matches disk inode name i j = string_equal (entry_name (disk (inode.direct_block i)) j) name

-- What a search tells: the first entry of the name, or that no entry has it.
unfoldable pub Finds : Blocks → DiskInode → List ℕ → Option (ℕ × (ℕ × ℕ)) → Type 0
Finds disk inode name none =
    (i j : ℕ) → i < block_count inode.size → j < 16 → matches disk inode name i j ≡ false
Finds disk inode name (some (i, (j, id))) =
    (i < block_count inode.size)
    × (j < 16)
    × (matches disk inode name i j ≡ true)
    × (entry_inode_id (disk (inode.direct_block i)) j ≡ id)
    × ((i' j' : ℕ)
        → j' < 16
        → (i' < i) ⊎ ((i' ≡ i) × (j' < j))
        → matches disk inode name i' j' ≡ false)

choice-none : {A : Type 0} (b : Bool) (a : A) → (if b then some a else none) ≡ none → b ≡ false
choice-none true a h = cc
choice-none false a h = refl

choice-some :
    {A : Type 0} (b : Bool) (a a' : A)
    → (if b then some a else none) ≡ some a'
    → (b ≡ true) × (a ≡ a')
choice-some true a a' h = (refl, cc)
choice-some false a a' h = cc

block-none :
    (name : List ℕ) (buffer : ℕ → ℕ)
    → find_in_block name buffer ≡ none
    → (j : ℕ) → j < 16
    → string_equal (entry_name buffer j) name ≡ false
unfolding find_in_block FirstSome
block-none name buffer h j l =
    choice-none _ _
      (subst (FirstSome _ 16 0) h (first_some-FirstSome _ 16 0) j (omega arith) (omega arith))

-- The first entry of the name in a block.
Hit : List ℕ → (ℕ → ℕ) → ℕ → ℕ → Type 0
Hit name buffer id j =
    (j < 16)
    × (string_equal (entry_name buffer j) name ≡ true)
    × (entry_inode_id buffer j ≡ id)
    × ((j' : ℕ) → j' < j → string_equal (entry_name buffer j') name ≡ false)

block-some :
    (name : List ℕ) (buffer : ℕ → ℕ) (j id : ℕ)
    → find_in_block name buffer ≡ some (j, id)
    → Hit name buffer id j
unfolding find_in_block FirstSome Hit
block-some name buffer j id h =
    let (k, a, b, c, d) = subst (FirstSome _ 16 0) h (first_some-FirstSome _ 16 0) in
    let (e, f) = choice-some _ _ _ c in
    subst (Hit name buffer id) (ap (λ x. x.0) f)
      (b, e, ap (λ x. x.1) f, λ j' l. choice-none _ _ (d j' (omega arith) l))

-- A hit in a block behind blocks that have none.
First : Blocks → DiskInode → List ℕ → ℕ → ℕ → ℕ → Type 0
First disk inode name j id i =
    (i < block_count inode.size)
    × Hit name (disk (inode.direct_block i)) id j
    × ((i' : ℕ) → i' < i → find_in_block name (disk (inode.direct_block i')) ≡ none)

Finds-First :
    (disk : Blocks) (inode : DiskInode) (name : List ℕ) (i j id : ℕ)
    → First disk inode name j id i
    → Finds disk inode name (some (i, (j, id)))
unfolding First Hit Finds
Finds-First disk inode name i j id (l, (h, m, e, d), n) =
    (l, h, m, e, λ i' j' k o. earlier i' j' k o)
  where
    earlier :
        (i' j' : ℕ)
        → j' < 16
        → (i' < i) ⊎ ((i' ≡ i) × (j' < j))
        → matches disk inode name i' j' ≡ false
    earlier i' j' k (inl o) = block-none name (disk (inode.direct_block i')) (n i' o) j' k
    earlier i' j' k (inr (p, o)) =
        subst (λ b. matches disk inode name b j' ≡ false) (sym p) (d j' o)

First-intro :
    (disk : Blocks) (inode : DiskInode) (name : List ℕ) (i j id : ℕ)
    → i < block_count inode.size
    → find_in_block name (disk (inode.direct_block i)) ≡ some (j, id)
    → ((i' : ℕ) → i' < i → find_in_block name (disk (inode.direct_block i')) ≡ none)
    → First disk inode name j id i
unfolding First
First-intro disk inode name i j id l h n =
    (l, block-some name (disk (inode.direct_block i)) j id h, n)

find_entry-Finds :
    (disk : Blocks) (inode : DiskInode) (name : List ℕ) (r : Option (ℕ × (ℕ × ℕ)))
    → find_entry disk inode name ≡ r
    → Finds disk inode name r
unfolding find_entry FirstSome Finds
find_entry-Finds disk inode name none h = λ i j l m.
    block-none name _
      (with_index-none i _ (
        subst (FirstSome _ (block_count inode.size) 0) h
          (first_some-FirstSome _ (block_count inode.size) 0) i (omega arith) (omega (arith, l))))
      j m
find_entry-Finds disk inode name (some (i, (j, id))) h =
    let (k, a, b, c, d) =
      subst (FirstSome _ (block_count inode.size) 0) h
        (first_some-FirstSome _ (block_count inode.size) 0) in
    let (p, q) = with_index-some k i (j, id) _ c in
    Finds-First disk inode name i j id (
      subst (First disk inode name j id) p (
        First-intro disk inode name k j id (omega (arith, b)) q
          (λ i' l. with_index-none i' _ (d i' (omega arith) l))))

-- `findInodeIDByNameFromDirectory` of a name that is not empty, in a directory, gives the number in
-- the first entry of the name, in the order of the blocks that the size of the directory covers and
-- of their sixteen entries, and 0 when none of these has the name.
pub find_inode_id-Finds :
    (fs : Gfs) (disk : Blocks) (id : ℕ) (name : List ℕ)
    → string_equal name [] ≡ false
    → (read_disk_inode fs disk id).file_type ≡ ft_directory
    → (r : Option (ℕ × (ℕ × ℕ))) × Finds disk (read_disk_inode fs disk id) name r
      × (find_inode_id_by_name_from_directory fs disk id name ≡ found_id r)
unfolding find_inode_id_by_name_from_directory
find_inode_id-Finds fs disk id name h e =
    let inode = read_disk_inode fs disk id in
    (find_entry disk inode name, find_entry-Finds disk inode name _ refl, rw (h, e) refl)
