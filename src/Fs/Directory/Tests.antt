-- ===== src/Fs/Directory/Tests.antt =====
-- A directory that is filled and searched.
use gos_v.Common.{
  ℕ, ◌-◌, ◌^◌, ◌<◌, ◌≤◌, ◌≡◌, refl, sym, ap, subst, ◌∙◌, arith, Bool, true, not, ltb, false, List,
  [], ◌∷◌, Outcome, ok, ◌>>=◌, ◌==◌, if◌then◌else◌, Option,
}
use gos_v.Common.Bits.{has_bit, set_bit, clear_bit}
use gos_v.Common.Search.{first_from, first_some}
use gos_v.Utils.{string_equal, string_length, char_count}
use gos_v.Fs.BitMap.{
  Blocks, Gfs, clear_in_byte, clear_in_block, clear_in_map, allocate_bit, allocate_one_inode_id,
  allocate_one_data_block_id, free_one_inode_id, free_bit,
}
use gos_v.Fs.Inode.{
  new_empty_disk_inode, ft_file, ft_directory, byte_of_word, word_at, write_bytes, read_disk_inode,
  write_disk_inode, inode_word, inode_byte, inode_block, clear_file_content_by_inode_id,
  free_blocks,
}
use gos_v.Fs.Directory.{
  create_file, append_entry, place_for_entry, with_block, write_entry, entry_byte, write_block,
  patched, removed_byte, remove_entry, remove_inode_by_name_from_directory,
  find_inode_id_by_name_from_directory, find_entry, find_in_block, entry_name, entry_inode_id,
  bytes_from, found_id,
}
use gos_v.Common.Small.{every, every-lt}
use gos_v.Fs.Inode.{DiskInode, block_count}
use gos_v.Fs.Inode.Laws.{IsInode}
use gos_v.Fs.BitMap.{in_use}
use gos_v.Fs.Directory.Find.{Finds, matches, find_inode_id-Finds}
use gos_v.Fs.Directory.Created.{IsLaidOut}
use gos_v.Fs.Directory.Place.{IsDirectory}
use gos_v.Fs.Directory.Create.{find-create_file}

abbrev fs : Gfs
fs = record {
  inode_bit_map = record { blocks = 1; start_block_id = 1 };
  data_bit_map = record { blocks = 4; start_block_id = 1026 };
  inode_area_start_block_id = 2;
  data_area_start_block_id = 1030;
  behind_inode = λ i. 0;
}

-- The root directory is the inode 0 and has no entry.
abbrev root : Blocks
root =
    write_disk_inode fs (λ b j. if b == 1 then (if j == 0 then 1 else 0) else 0) 0
      (record new_empty_disk_inode { file_type = ft_directory; ref_count = 1 })

-- The names "a", "b" and "c".
abbrev named : ℕ → List ℕ
named ch = ch ∷ 0 ∷ []

abbrev found : Blocks → List ℕ → ℕ
found disk name = find_inode_id_by_name_from_directory fs disk 0 name

abbrev create : Blocks → List ℕ → Outcome (ℕ × Blocks)
create disk name = create_file fs disk 0 0 name ft_file

abbrev two_files : Outcome Blocks
two_files = do
  (x, disk1) ← create root (named b'a')
  (y, disk2) ← create disk1 (named b'b')
  ok disk2

abbrev searched : Blocks → Outcome (ℕ × ℕ × ℕ)
searched disk = ok (found disk (named b'a'), found disk (named b'b'), found disk (named b'c'))

created : (two_files >>= searched) ≡ ok (1, 2, 0)
unfolding create_file append_entry place_for_entry with_block write_entry entry_byte write_block
    patched find_inode_id_by_name_from_directory find_entry find_in_block entry_name entry_inode_id
    bytes_from allocate_one_data_block_id allocate_one_inode_id allocate_bit clear_in_map
    clear_in_block clear_in_byte first_from first_some has_bit set_bit write_bytes byte_of_word
    word_at read_disk_inode write_disk_inode inode_word inode_byte inode_block string_equal
    string_length char_count
created = refl

abbrev replaced : Blocks → Outcome Blocks
replaced disk0 = do
  (x, disk1) ← remove_inode_by_name_from_directory fs disk0 0 (named b'a')
  (y, disk2) ← create disk1 (named b'c')
  ok disk2

-- "a" is removed and "c" is created in place of the last entry, so that "b" is lost.
lost : (two_files >>= replaced >>= searched) ≡ ok (0, 0, 1)
unfolding created remove_inode_by_name_from_directory remove_entry removed_byte
    clear_file_content_by_inode_id free_blocks free_one_inode_id free_bit clear_bit
lost = refl

-- Inodes 0 and 1 and the first data block are in use.
abbrev first_used : Blocks
first_used b j = if j == 0 then (if b == 1 then 3 else (if b == 1026 then 1 else 0)) else 0

abbrev one_file : Blocks
one_file =
    write_entry fs first_used 0
      (record new_empty_disk_inode {
        file_type = ft_directory;
        ref_count = 1;
        direct_block = λ i. 1030;
      })
      1030 (λ k. 0) (named b'a') ft_file 1

one_file-type : (read_disk_inode fs one_file 0).file_type ≡ ft_directory
unfolding created
one_file-type = refl

a-some : string_equal (named b'a') [] ≡ false
unfolding string_equal string_length
a-some = refl

find_inode_id-Finds_example :
    (r : Option (ℕ × (ℕ × ℕ))) × Finds one_file (read_disk_inode fs one_file 0) (named b'a') r
    × (find_inode_id_by_name_from_directory fs one_file 0 (named b'a') ≡ found_id r)
find_inode_id-Finds_example = find_inode_id-Finds fs one_file 0 (named b'a') a-some one_file-type

abbrev root_inode : DiskInode
root_inode = read_disk_inode fs one_file 0

one_block : block_count root_inode.size ≡ 1
unfolding created
one_block = refl

first_block : root_inode.direct_block 0 ≡ 1030
unfolding created
first_block = refl

words : every (λ i. ltb (root_inode.direct_block i) (2 ^ 32)) 27 ≡ true
unfolding created every
words = refl

no_b : every (λ j. not (matches one_file root_inode (named b'b') 0 j)) 16 ≡ true
unfolding created every
no_b = refl

first_in_use : in_use one_file fs.data_bit_map (1030 - 1030) ≡ true
unfolding created in_use
first_in_use = refl

only_block : (i : ℕ) → i < block_count root_inode.size → i ≡ 0
only_block i h = let k = subst (λ n. i < n) one_block h in omega (arith, k)

ltb→lt : (a b : ℕ) → ltb a b ≡ true → a < b
ltb→lt a b h = ground arith

not→false : (x : Bool) → not x ≡ true → x ≡ false
not→false true h = sym h
not→false false h = refl

root_inode-IsInode : IsInode root_inode
unfolding created
root_inode-IsInode = record {
  file_type = omega arith;
  size = omega arith;
  ref_count = omega arith;
  direct_block =
      λ i h. ltb→lt _ _ (every-lt (λ i. ltb (root_inode.direct_block i) (2 ^ 32)) 27 i words h);
  indirect1 = omega arith;
  indirect2 = omega arith;
}

root_inode-IsDirectory : IsDirectory fs one_file root_inode (named b'b')
unfolding created
root_inode-IsDirectory = record {
  words = root_inode-IsInode;
  directory = refl;
  whole = refl;
  small = omega arith;
  in_data = λ i h.
      subst (λ k. 1030 ≤ root_inode.direct_block k) (sym (only_block i h))
        (omega (arith, first_block));
  used = λ i h.
      ap (λ k. in_use one_file fs.data_bit_map (root_inode.direct_block k - 1030)) (only_block i h)
      ∙ first_in_use;
  apart = λ i j l h e. let k = only_block j h in omega (arith, k, l);
  free = λ i j h l.
      ap (λ k. matches one_file root_inode (named b'b') k j) (only_block i h)
      ∙ not→false _
          (every-lt (λ j. not (matches one_file root_inode (named b'b') 0 j)) 16 j no_b l);
}

fs-IsLaidOut : IsLaidOut fs
fs-IsLaidOut = record {
  inode_ids = omega arith;
  inode_map = omega arith;
  inode_area = omega arith;
  data_map = omega arith;
  data_area = omega arith;
}

no_slash : char_count (named b'b') b'/' ≡ 0
unfolding created
no_slash = refl

b-some : string_equal (named b'b') [] ≡ false
unfolding created
b-some = refl

b-short : string_length (named b'b') < 28
unfolding created
b-short = omega arith

third_free : in_use one_file fs.inode_bit_map 2 ≡ false
unfolding created in_use
third_free = refl

second_free : in_use one_file fs.data_bit_map 1 ≡ false
unfolding created in_use
second_free = refl

find-create_file_example :
    (file_id : ℕ) × (disk' : Blocks) × (create_file fs one_file 0 0 (named b'b') ft_file
      ≡ ok (file_id, disk'))
    × (in_use one_file fs.inode_bit_map file_id ≡ false)
    × (find_inode_id_by_name_from_directory fs disk' 0 (named b'b') ≡ file_id)
find-create_file_example =
    find-create_file fs one_file 0 0 (named b'b') ft_file 2 1 fs-IsLaidOut root_inode-IsDirectory
      (omega arith) no_slash b-some b-short (omega arith) third_free (omega arith) second_free
