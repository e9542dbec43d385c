-- ===== src/Fs/Directory/Created.antt =====
-- What `CreateFile` of kernel/fs/fs.c has created is found.
use gos_v.Common.{
  ℕ, ◌+◌, ◌*◌, ◌/◌, ◌%◌, ◌^◌, ◌<◌, ◌≤◌, ◌≡◌, refl, ap, sym, ◌∙◌, ◌⊎◌, inl, inr, arith, true, false,
  List, [], Option, none, some,
}
use gos_v.Utils.{string_equal, string_length}
use gos_v.Fs.BitMap.{Blocks, Gfs}
use gos_v.Fs.Inode.{DiskInode, ft_directory, block_count, read_disk_inode, inode_block}
use gos_v.Fs.Inode.Laws.{IsInode, SameInode, read-write_same, write-elsewhere}
use gos_v.Fs.Directory.{
  entry_name, entry_inode_id, entry_byte, patched, write_block, write_entry, found_id,
  find_inode_id_by_name_from_directory,
}
use gos_v.Fs.Directory.Find.{Finds, matches, find_inode_id-Finds}
use gos_v.Fs.Directory.Names.{entry_name-patched, entry_name-before, entry_inode_id-patched}

order :
    (i j k q : ℕ)
    → ((i < k) ⊎ ((i ≡ k) × (j < q))) ⊎ (((k < i) ⊎ ((k ≡ i) × (q < j))) ⊎ ((k ≡ i) × (q ≡ j)))
order i j k q = ground arith

-- A search that has a match at a place and none before it gives the number there.
only_first :
    (disk : Blocks) (inode : DiskInode) (name : List ℕ) (i j : ℕ) (r : Option (ℕ × (ℕ × ℕ)))
    → Finds disk inode name r
    → i < block_count inode.size
    → j < 16
    → matches disk inode name i j ≡ true
    → ((i' j' : ℕ)
        → j' < 16
        → (i' < i) ⊎ ((i' ≡ i) × (j' < j))
        → matches disk inode name i' j' ≡ false)
    → found_id r ≡ entry_inode_id (disk (inode.direct_block i)) j
unfolding Finds
only_first disk inode name i j none f l h m n = let g = f i j l h in cc
only_first disk inode name i j (some (k, (q, id))) (a, b, c, d, e) l h m n = elim (order i j k q) [
  | inl o ↦ let g = e i j h o in cc
  | inr (inl o) ↦ let g = n k q b o in cc
  | inr (inr (o, p)) ↦ sym d ∙ rw (o, p) refl
]

-- The numbers of inodes are words, and the areas of the disk come one after the other: the map of the
-- inodes, the inodes, the map of the data blocks, and the data blocks, whose numbers are words.
pub record IsLaidOut (fs : Gfs) : Type 0 where
  pub inode_ids : fs.inode_bit_map.blocks * 4096 < 2 ^ 32
  pub inode_map :
      fs.inode_bit_map.start_block_id + fs.inode_bit_map.blocks ≤ fs.inode_area_start_block_id
  pub inode_area :
      fs.inode_area_start_block_id + fs.inode_bit_map.blocks * 1024 ≤ fs.data_bit_map.start_block_id
  pub data_map :
      fs.data_bit_map.start_block_id + fs.data_bit_map.blocks ≤ fs.data_area_start_block_id
  pub data_area : fs.data_area_start_block_id + fs.data_bit_map.blocks * 4096 < 2 ^ 32

-- An inode is not written to a data block.
pub data-inode_block :
    (fs : Gfs) (id b : ℕ)
    → IsLaidOut fs
    → id < fs.inode_bit_map.blocks * 4096
    → fs.data_area_start_block_id ≤ b
    → ¬ (b ≡ inode_block fs id)
unfolding inode_block
data-inode_block fs id b s h l = λ e. omega (arith, s.inode_area, s.data_map, s.data_area, h, l, e)

-- A directory into which the next entry can be written: its inode as it is in memory then, the
-- blocks before the entry's and the entry's block, and that no entry has the name.
pub record IsReady (fs : Gfs) (disk : Blocks) (inode : DiskInode) (name : List ℕ) : Type 0 where
  pub words : IsInode inode
  pub directory : inode.file_type ≡ ft_directory
  pub whole : inode.size % 32 ≡ 0
  pub small : inode.size / 512 < 27
  pub in_data : (i : ℕ) → i ≤ inode.size / 512 → fs.data_area_start_block_id ≤ inode.direct_block i
  pub apart :
      (i : ℕ)
      → i < inode.size / 512
      → ¬ (inode.direct_block i ≡ inode.direct_block (inode.size / 512))
  pub free :
      (i j : ℕ) → 512 * i + 32 * j < inode.size → j < 16 → matches disk inode name i j ≡ false

-- The blocks of data after the entry has been written.
data_after :
    (fs : Gfs) (disk : Blocks) (id file_id block : ℕ) (inode : DiskInode) (buffer : ℕ → ℕ)
    (name : List ℕ) (file_type b k : ℕ)
    → IsLaidOut fs
    → id < fs.inode_bit_map.blocks * 4096
    → file_id < fs.inode_bit_map.blocks * 4096
    → fs.data_area_start_block_id ≤ b
    → write_entry fs disk id inode block buffer name file_type file_id b k
      ≡ write_block disk block (patched buffer (inode.size % 512) (entry_byte name file_id)) b k
unfolding write_entry
data_after fs disk id file_id block inode buffer name file_type b k s h g l =
    write-elsewhere fs _ id _ b k (data-inode_block fs id b s h l)
    ∙ write-elsewhere fs _ file_id _ b k (data-inode_block fs file_id b s g l)

on_inode : (i m j q : ℕ) → m < 27 → (i < m) ⊎ ((i ≡ m) × (j < q)) → i < 27
on_inode i m j q h o = ground arith

written_block :
    (disk : Blocks) (block : ℕ) (buffer : ℕ → ℕ) (k : ℕ)
    → write_block disk block buffer block k ≡ buffer k
unfolding write_block
written_block disk block buffer k = ground arith

other_block :
    (disk : Blocks) (block b : ℕ) (buffer : ℕ → ℕ) (k : ℕ)
    → ¬ (b ≡ block)
    → write_block disk block buffer b k ≡ disk b k
unfolding write_block
other_block disk block b buffer k n = ground arith

module _ (fs : Gfs) (disk1 disk2 : Blocks) (id file_id file_type : ℕ) (inode : DiskInode)
    (name : List ℕ) where
  -- The number of the last block, and of the entry in it.
  abbrev pub last_block : ℕ
  last_block = inode.direct_block (inode.size / 512)

  abbrev place : ℕ
  place = inode.size % 512 / 32

  abbrev pub after : Blocks
  after = write_entry fs disk2 id inode last_block (disk1 last_block) name file_type file_id

  abbrev grown : DiskInode
  grown = record inode { size = (inode.size + 32) % 2 ^ 32 }

  module _ (s : IsLaidOut fs) (h : id < fs.inode_bit_map.blocks * 4096)
      (g : file_id < fs.inode_bit_map.blocks * 4096)
      (same : (b k : ℕ) → fs.data_area_start_block_id ≤ b → disk2 b k ≡ disk1 b k)
      (ready : IsReady fs disk1 inode name) where
    grown-IsInode : IsInode grown
    grown-IsInode = record {
      file_type = ready.words.file_type;
      size = omega arith;
      ref_count = ready.words.ref_count;
      direct_block = ready.words.direct_block;
      indirect1 = ready.words.indirect1;
      indirect2 = ready.words.indirect2;
    }

    after-SameInode : SameInode (read_disk_inode fs after id) grown
    unfolding write_entry
    after-SameInode = read-write_same fs _ id grown grown-IsInode

    at_offset : inode.size % 512 ≡ 32 * place
    at_offset = omega (arith, ready.whole)

    after-last :
        after last_block ≡ patched (disk1 last_block) (32 * place) (entry_byte name file_id)
    after-last = λ t k.
        (data_after fs disk2 id file_id last_block inode (disk1 last_block) name file_type
              last_block k s h g (ready.in_data (inode.size / 512) (omega arith))
            ∙ written_block disk2 last_block _ k
            ∙ ap (λ o. patched (disk1 last_block) o (entry_byte name file_id) k) at_offset)
          t

    after-before :
        (i : ℕ) → i < inode.size / 512 → after (inode.direct_block i) ≡ disk1 (inode.direct_block i)
    after-before i l = λ t k.
        (data_after fs disk2 id file_id last_block inode (disk1 last_block) name file_type
              (inode.direct_block i) k s h g (ready.in_data i (omega (arith, l)))
            ∙ other_block disk2 last_block (inode.direct_block i) _ k (ready.apart i l)
            ∙ same (inode.direct_block i) k (ready.in_data i (omega (arith, l))))
          t

    -- No entry before the new one has the name.
    before :
        string_length name < 28
        → (i j : ℕ) → j < 16
        → (i < inode.size / 512) ⊎ ((i ≡ inode.size / 512) × (j < place))
        → string_equal (entry_name (after (inode.direct_block i)) j) name ≡ false
    before n i j l (inl o) = rw (after-before i o) (ready.free i j (omega (arith, o, l)) l)
    before n i j l (inr (e, o)) =
        ap (λ b. string_equal (entry_name (after (inode.direct_block b)) j) name) e
        ∙ ap (λ f. string_equal (entry_name f j) name) after-last
        ∙ entry_name-before (disk1 last_block) (entry_byte name file_id) name place j (omega arith)
            o n (ready.free (inode.size / 512) j (omega (arith, o, at_offset)) l)

    pub found_after :
        string_equal name [] ≡ false
        → string_length name < 28
        → file_id < 2 ^ 32
        → find_inode_id_by_name_from_directory fs after id name ≡ file_id
    found_after e n w =
        let d = after-SameInode in
        let (r, f, p) = find_inode_id-Finds fs after id name e (d.file_type ∙ ready.directory) in
        let b : (read_disk_inode fs after id).direct_block (inode.size / 512) ≡ last_block =
          d.direct_block (inode.size / 512) ready.small in
        p
        ∙ only_first after (read_disk_inode fs after id) name (inode.size / 512) place r f
            (omega (arith, d.size, ready.small)) (omega arith)
            (rw (b, after-last)
              (entry_name-patched (disk1 last_block) name file_id place (omega arith) n))
            (λ i j l o.
              ap (λ q. string_equal (entry_name (after q) j) name)
                (d.direct_block i (on_inode i (inode.size / 512) j place ready.small o))
              ∙ before n i j l o)
        ∙ ap (λ q. entry_inode_id (after q) place) b
        ∙ ap (λ q. entry_inode_id q place) after-last
        ∙ entry_inode_id-patched (disk1 last_block) name file_id place w
