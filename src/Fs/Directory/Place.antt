-- ===== src/Fs/Directory/Place.antt =====
-- The place that `CreateFile` of kernel/fs/fs.c has for an entry.
use gos_v.Common.{
  ℕ, ◌+◌, ◌-◌, ◌*◌, ◌/◌, ◌%◌, ◌^◌, ◌<◌, ◌≤◌, ◌≡◌, refl, ap, sym, ◌∙◌, subst, ◌⊎◌, inl, inr, arith,
  true, false, List, ◌==◌, if◌then◌else◌, Bool-cases, Outcome, ok, panic, hang,
}
use gos_v.Utils.{string_equal}
use gos_v.Fs.BitMap.{Blocks, BitMap, Gfs, allocate_bit, allocate_one_data_block_id, in_use}
use gos_v.Fs.BitMap.Laws.{Allocated, allocate_bit-Allocated, allocate_bit-elsewhere}
use gos_v.Fs.Inode.{DiskInode, ft_directory, block_count}
use gos_v.Fs.Inode.Laws.{IsInode}
use gos_v.Fs.Directory.{entry_name, place_for_entry, with_block}
use gos_v.Fs.Directory.Find.{matches}
use gos_v.Fs.Directory.Created.{IsLaidOut, IsReady}

-- A directory whose blocks are data blocks in use, no two the same, and none of whose entries has the
-- name.
pub record IsDirectory (fs : Gfs) (disk : Blocks) (inode : DiskInode) (name : List ℕ) : Type 0 where
  pub words : IsInode inode
  pub directory : inode.file_type ≡ ft_directory
  pub whole : inode.size % 32 ≡ 0
  pub small : inode.size / 512 < 27
  pub in_data :
      (i : ℕ) → i < block_count inode.size → fs.data_area_start_block_id ≤ inode.direct_block i
  pub used :
      (i : ℕ)
      → i < block_count inode.size
      → in_use disk fs.data_bit_map (inode.direct_block i - fs.data_area_start_block_id) ≡ true
  pub apart :
      (i j : ℕ)
      → i < j
      → j < block_count inode.size
      → ¬ (inode.direct_block i ≡ inode.direct_block j)
  pub free : (i j : ℕ) → i < block_count inode.size → j < 16 → matches disk inode name i j ≡ false

-- An allocation where a bit is clear.
pub gives :
    (disk : Blocks) (map : BitMap) (k : ℕ) (r : Outcome (ℕ × Blocks))
    → k < map.blocks * 4096
    → in_use disk map k ≡ false
    → allocate_bit disk map ≡ r
    → Allocated disk map r
    → (n : ℕ) × (disk' : Blocks) × (allocate_bit disk map ≡ ok (n, disk'))
      × (n < map.blocks * 4096)
      × (in_use disk map n ≡ false)
unfolding Allocated
gives disk map k panic l c e a = let f = a k l in cc
gives disk map k hang l c e a = absurd a
gives disk map k (ok (n, disk')) l c e (x, y, z, w) = (n, disk', e, x, y)

-- The place for the entry, where one can be had.
pub record Placed (fs : Gfs) (disk : Blocks) (inode : DiskInode) (name : List ℕ) : Type 0 where
  pub inode' : DiskInode
  pub disk' : Blocks
  pub place : place_for_entry fs disk inode ≡ ok (inode', disk')
  pub ready : IsReady fs disk' inode' name
  pub inodes :
      (k : ℕ)
      → k < fs.inode_bit_map.blocks * 4096
      → in_use disk' fs.inode_bit_map k ≡ in_use disk fs.inode_bit_map k

last_in : (size : ℕ) → size / 512 < 27 → size % 512 == 0 ≡ false → size / 512 < block_count size
last_in size h e = ground arith

part_in : (size i j : ℕ) → size / 512 < 27 → 512 * i + 32 * j < size → i < block_count size
part_in size i j h l = omega arith

below_in : (size i : ℕ) → size / 512 < 27 → i < size / 512 → i < block_count size
below_in size i h l = omega arith

whole_block : (size i j : ℕ) → size % 512 == 0 ≡ true → 512 * i + 32 * j < size → i < size / 512
whole_block size i j e l = ground arith

same_block :
    (fs : Gfs) (disk : Blocks) (inode : DiskInode) (name : List ℕ)
    → IsDirectory fs disk inode name
    → inode.size % 512 == 0 ≡ false
    → Placed fs disk inode name
unfolding place_for_entry
same_block fs disk inode name d e = record {
  inode' = inode;
  disk' = disk;
  place = rw e refl;
  ready = record {
    words = d.words;
    directory = d.directory;
    whole = d.whole;
    small = d.small;
    in_data = λ i l. d.in_data i (omega (arith, l, last_in inode.size d.small e));
    apart = λ i l. d.apart i (inode.size / 512) l (last_in inode.size d.small e);
    free = λ i j l m. d.free i j (part_in inode.size i j d.small l) m;
  };
  inodes = λ k l. refl;
}

below_or_last : (i m : ℕ) → i ≤ m → (i < m) ⊎ (i ≡ m)
below_or_last i m h = ground arith

-- The inode with a new last block.
abbrev extended : DiskInode → ℕ → DiskInode
extended inode block = record inode {
  direct_block = λ i. if i == inode.size / 512 then block else inode.direct_block i;
}

extended-last :
    (inode : DiskInode) (block : ℕ) → (extended inode block).direct_block (inode.size / 512) ≡ block
extended-last inode block = ground arith

extended-before :
    (inode : DiskInode) (block i : ℕ)
    → i < inode.size / 512
    → (extended inode block).direct_block i ≡ inode.direct_block i
extended-before inode block i l = ground arith

data_wrap :
    (fs : Gfs) (n : ℕ)
    → IsLaidOut fs
    → n < fs.data_bit_map.blocks * 4096
    → (n + fs.data_area_start_block_id) % 2 ^ 32 ≡ n + fs.data_area_start_block_id
data_wrap fs n s l = omega (arith, s.data_area)

extended-IsReady :
    (fs : Gfs) (disk disk' : Blocks) (inode : DiskInode) (name : List ℕ) (n : ℕ)
    → IsLaidOut fs
    → IsDirectory fs disk inode name
    → inode.size % 512 == 0 ≡ true
    → n < fs.data_bit_map.blocks * 4096
    → in_use disk fs.data_bit_map n ≡ false
    → ((b k : ℕ) → fs.data_area_start_block_id ≤ b → disk' b k ≡ disk b k)
    → IsReady fs disk' (extended inode (n + fs.data_area_start_block_id)) name
extended-IsReady fs disk disk' inode name n s d e l u same =
    let block = n + fs.data_area_start_block_id in
    let low : (i : ℕ)
        → i < inode.size / 512
        → (extended inode block).direct_block i ≡ inode.direct_block i =
      extended-before inode block in
    record {
      words = record {
        file_type = d.words.file_type;
        size = d.words.size;
        ref_count = d.words.ref_count;
        direct_block = λ i h. ground (arith, d.words.direct_block i h, s.data_area);
        indirect1 = d.words.indirect1;
        indirect2 = d.words.indirect2;
      };
      directory = d.directory;
      whole = d.whole;
      small = d.small;
      in_data = λ i h. elim (below_or_last i (inode.size / 512) h) [
        | inl o ↦ rw (low i o) (d.in_data i (below_in inode.size i d.small o))
        | inr q ↦
            subst (λ k. fs.data_area_start_block_id ≤ (extended inode block).direct_block k) (sym q)
              (rw (extended-last inode block) (omega arith))
      ];
      apart = λ i h p.
          let x : inode.direct_block i ≡ block = sym (low i h) ∙ p ∙ extended-last inode block in
          let y : inode.direct_block i - fs.data_area_start_block_id ≡ n = omega (arith, x) in
          let t =
            subst (λ k. in_use disk fs.data_bit_map k ≡ true) y
              (d.used i (below_in inode.size i d.small h)) in
          cc;
      free = λ i j h m.
          let o = whole_block inode.size i j e h in
          let q = below_in inode.size i d.small o in
          ap (λ b. string_equal (entry_name (disk' b) j) name) (low i o)
          ∙ ap (λ f. string_equal (entry_name f j) name)
              (λ t k. same (inode.direct_block i) k (d.in_data i q) t)
          ∙ d.free i j q m;
    }

in_use-elsewhere :
    (disk disk' : Blocks) (map : BitMap) (k : ℕ)
    → ((b i : ℕ) → b < map.start_block_id + map.blocks → disk' b i ≡ disk b i)
    → k < map.blocks * 4096
    → in_use disk' map k ≡ in_use disk map k
unfolding in_use
in_use-elsewhere disk disk' map k h l =
    rw (h (map.start_block_id + k / 4096) (k % 4096 / 8) (omega (arith, l))) refl

new_block :
    (fs : Gfs) (disk : Blocks) (inode : DiskInode) (name : List ℕ) (k : ℕ)
    → IsLaidOut fs
    → IsDirectory fs disk inode name
    → inode.size % 512 == 0 ≡ true
    → k < fs.data_bit_map.blocks * 4096
    → in_use disk fs.data_bit_map k ≡ false
    → Placed fs disk inode name
unfolding place_for_entry with_block allocate_one_data_block_id
new_block fs disk inode name k s d e l c =
    let (n, disk', a, m, u) =
      gives disk fs.data_bit_map k _ l c refl (allocate_bit-Allocated disk fs.data_bit_map) in
    record {
      inode' = extended inode (n + fs.data_area_start_block_id);
      disk' = disk';
      place = rw (e, a, data_wrap fs n s m) refl;
      ready = extended-IsReady fs disk disk' inode name n s d e m u (λ b i h.
          allocate_bit-elsewhere disk disk' fs.data_bit_map n b i a
            (inr (omega (arith, s.data_map, h))));
      inodes = λ q h.
          in_use-elsewhere disk disk' fs.inode_bit_map q
            (λ b i o.
              allocate_bit-elsewhere disk disk' fs.data_bit_map n b i a
                (inl (omega (arith, s.inode_map, s.inode_area, o))))
            h;
    }

pub placed :
    (fs : Gfs) (disk : Blocks) (inode : DiskInode) (name : List ℕ) (k : ℕ)
    → IsLaidOut fs
    → IsDirectory fs disk inode name
    → k < fs.data_bit_map.blocks * 4096
    → in_use disk fs.data_bit_map k ≡ false
    → Placed fs disk inode name
placed fs disk inode name k s d l c = elim (Bool-cases (inode.size % 512 == 0)) [
  | inl e ↦ new_block fs disk inode name k s d e l c
  | inr e ↦ same_block fs disk inode name d e
]
