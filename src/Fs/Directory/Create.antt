-- ===== src/Fs/Directory/Create.antt =====
-- `CreateFile` of kernel/fs/fs.c in a directory.
use gos_v.Common.{
  ℕ, ◌*◌, ◌/◌, ◌<◌, ◌≤◌, ◌≡◌, refl, ap, sym, ◌∙◌, inr, arith, true, false, List, [], ◌==◌, leb,
  ne→==, Option, none, some, ok,
}
use gos_v.Utils.{string_equal, string_length, char_count}
use gos_v.Fs.BitMap.{Blocks, Gfs, allocate_one_inode_id, in_use}
use gos_v.Fs.BitMap.Laws.{allocate_bit-Allocated, allocate_bit-elsewhere}
use gos_v.Fs.Inode.{DiskInode, ft_directory, inode_direct_blocks, block_count, read_disk_inode}
use gos_v.Fs.Directory.{
  no_inode, found_id, find_inode_id_by_name_from_directory, append_entry, create_file,
}
use gos_v.Fs.Directory.Find.{Finds, matches, find_inode_id-Finds}
use gos_v.Fs.Directory.Created.{IsLaidOut, found_after, after}
use gos_v.Fs.Directory.Place.{IsDirectory, Placed, placed, gives}

nothing :
    (disk : Blocks) (inode : DiskInode) (name : List ℕ) (r : Option (ℕ × (ℕ × ℕ)))
    → ((i j : ℕ) → i < block_count inode.size → j < 16 → matches disk inode name i j ≡ false)
    → Finds disk inode name r
    → found_id r ≡ 0
unfolding Finds
nothing disk inode name none f g = refl
nothing disk inode name (some (i, (j, id))) f (a, b, c, d, e) = let h = f i j a b in cc

lt→leb : (a b : ℕ) → a < b → leb b a ≡ false
lt→leb a b h = ground arith

none_found :
    (fs : Gfs) (disk : Blocks) (id : ℕ) (name : List ℕ)
    → IsDirectory fs disk (read_disk_inode fs disk id) name
    → string_equal name [] ≡ false
    → find_inode_id_by_name_from_directory fs disk id name ≡ 0
none_found fs disk id name d e =
    let (r, f, p) = find_inode_id-Finds fs disk id name e d.directory in
    p ∙ nothing disk (read_disk_inode fs disk id) name r d.free f

-- What is left after the entry is appended.
appended :
    (fs : Gfs) (disk : Blocks) (id : ℕ) (inode : DiskInode) (name : List ℕ) (file_type k : ℕ)
    → IsLaidOut fs
    → Placed fs disk inode name
    → id < fs.inode_bit_map.blocks * 4096
    → string_equal name [] ≡ false
    → string_length name < 28
    → k < fs.inode_bit_map.blocks * 4096
    → in_use disk fs.inode_bit_map k ≡ false
    → (file_id : ℕ) × (disk' : Blocks) × (append_entry fs disk id inode name file_type
        ≡ ok (file_id, disk'))
      × (in_use disk fs.inode_bit_map file_id ≡ false)
      × (find_inode_id_by_name_from_directory fs disk' id name ≡ file_id)
unfolding append_entry allocate_one_inode_id
appended fs disk id inode name file_type k s p h e n l c =
    let (file_id, disk2, a, m, u) =
      gives p.disk' fs.inode_bit_map k _ l (p.inodes k l ∙ c) refl
        (allocate_bit-Allocated p.disk' fs.inode_bit_map) in
    let same : (b i : ℕ) → fs.data_area_start_block_id ≤ b → disk2 b i ≡ p.disk' b i = λ b i o.
      allocate_bit-elsewhere p.disk' disk2 fs.inode_bit_map file_id b i a
        (inr (omega (arith, s.inode_map, s.inode_area, s.data_map, o))) in
    (
      file_id,
      after fs p.disk' disk2 id file_id file_type p.inode' name,
      rw (p.place, a) refl,
      sym (p.inodes file_id m) ∙ u,
      found_after fs p.disk' disk2 id file_id file_type p.inode' name s h m same p.ready e n
          (omega (arith, m, s.inode_ids)),
    )

-- The tests before the entry is appended.
create-append :
    (fs : Gfs) (disk : Blocks) (current id : ℕ) (name : List ℕ) (file_type : ℕ)
    → IsLaidOut fs
    → IsDirectory fs disk (read_disk_inode fs disk id) name
    → id < fs.inode_bit_map.blocks * 4096
    → char_count name b'/' ≡ 0
    → string_equal name [] ≡ false
    → create_file fs disk current id name file_type
      ≡ append_entry fs disk id (read_disk_inode fs disk id) name file_type
unfolding create_file
create-append fs disk current id name file_type s d h c e =
    let inode = read_disk_inode fs disk id in
    let x : id == no_inode ≡ false = ne→== id no_inode (λ q. omega (arith, q, h, s.inode_ids)) in
    let t : inode.file_type == ft_directory ≡ true = ap (λ q. q == ft_directory) d.directory in
    let y : leb inode_direct_blocks (inode.size / 512) ≡ false =
      lt→leb (inode.size / 512) 27 d.small in
    rw (x, c, t, none_found fs disk id name d e, y) refl

-- In a file system whose areas follow each other, `CreateFile` in a directory that is whole and has
-- fewer than 27 full blocks, where an inode and a data block are free, of a name of 1 to 27
-- characters without a slash that no entry has: it returns the number of an inode that was free, and
-- `findInodeIDByNameFromDirectory` of the name then gives this number.
pub find-create_file :
    (fs : Gfs) (disk : Blocks) (current id : ℕ) (name : List ℕ) (file_type inode_bit data_bit : ℕ)
    → IsLaidOut fs
    → IsDirectory fs disk (read_disk_inode fs disk id) name
    → id < fs.inode_bit_map.blocks * 4096
    → char_count name b'/' ≡ 0
    → string_equal name [] ≡ false
    → string_length name < 28
    → inode_bit < fs.inode_bit_map.blocks * 4096
    → in_use disk fs.inode_bit_map inode_bit ≡ false
    → data_bit < fs.data_bit_map.blocks * 4096
    → in_use disk fs.data_bit_map data_bit ≡ false
    → (file_id : ℕ) × (disk' : Blocks) × (create_file fs disk current id name file_type
        ≡ ok (file_id, disk'))
      × (in_use disk fs.inode_bit_map file_id ≡ false)
      × (find_inode_id_by_name_from_directory fs disk' id name ≡ file_id)
find-create_file fs disk current id name file_type inode_bit data_bit s d h c e n l u m v =
    let inode = read_disk_inode fs disk id in
    let (file_id, disk', a, f, g) =
      appended fs disk id inode name file_type inode_bit s
        (placed fs disk inode name data_bit s d m v) h e n l u in
    (file_id, disk', create-append fs disk current id name file_type s d h c e ∙ a, f, g)
