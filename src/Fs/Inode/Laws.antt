-- ===== src/Fs/Inode/Laws.antt =====
-- What writing an inode by kernel/fs/fs.c does to the inodes.
use gos_v.Common.{ℕ, ◌+◌, ◌-◌, ◌*◌, ◌^◌, ◌<◌, ◌≤◌, ◌≡◌, ap, sym, ◌∙◌, subst, arith}
use gos_v.Fs.BitMap.{Blocks, Gfs}
use gos_v.Fs.Inode.{
  DiskInode, word_at, inode_word, inode_block, inode_offset, write_bytes, write_disk_inode,
  read_disk_inode,
}
use gos_v.Fs.Inode.Words.{word_at-cong, other_byte, read_word}

-- The fields of an inode are words.
pub record IsInode (inode : DiskInode) : Type 0 where
  pub file_type : inode.file_type < 2 ^ 32
  pub size : inode.size < 2 ^ 32
  pub ref_count : inode.ref_count < 2 ^ 32
  pub direct_block : (i : ℕ) → i < 27 → inode.direct_block i < 2 ^ 32
  pub indirect1 : inode.indirect1 < 2 ^ 32
  pub indirect2 : inode.indirect2 < 2 ^ 32

-- Two inodes that have the same fields, and the same 27 blocks.
pub record SameInode (x y : DiskInode) : Type 0 where
  pub file_type : x.file_type ≡ y.file_type
  pub size : x.size ≡ y.size
  pub ref_count : x.ref_count ≡ y.ref_count
  pub direct_block : (i : ℕ) → i < 27 → x.direct_block i ≡ y.direct_block i
  pub indirect1 : x.indirect1 ≡ y.indirect1
  pub indirect2 : x.indirect2 ≡ y.indirect2

direct_word : (inode : DiskInode) (i : ℕ) → i < 27 → inode_word inode (3 + i) ≡ inode.direct_block i
unfolding inode_word
direct_word inode i h = let e : 3 + i - 3 ≡ i = omega arith in rw e (ground arith)

read_word-direct :
    (fs : Gfs) (disk : Blocks) (id : ℕ) (inode : DiskInode) (i : ℕ)
    → i < 27
    → inode.direct_block i < 2 ^ 32
    → word_at
        (λ j. write_disk_inode fs disk id inode (inode_block fs id) (inode_offset id + j))
        (12 + 4 * i)
      ≡ inode.direct_block i
read_word-direct fs disk id inode i h l =
    let f : ℕ → ℕ =
      λ j. write_disk_inode fs disk id inode (inode_block fs id) (inode_offset id + j) in
    let e : 12 + 4 * i ≡ 4 * (3 + i) = omega arith in
    let d = direct_word inode i h in
    ap (word_at f) e
    ∙ read_word fs disk id inode (3 + i) (omega arith) (subst (λ w. w < 2 ^ 32) (sym d) l)
    ∙ d

read_direct :
    (fs : Gfs) (disk : Blocks) (id i : ℕ)
    → i < 27
    → (read_disk_inode fs disk id).direct_block i
      ≡ word_at (λ j. disk (inode_block fs id) (inode_offset id + j)) (12 + 4 * i)
unfolding read_disk_inode
read_direct fs disk id i h = ground arith

pub read-write_same :
    (fs : Gfs) (disk : Blocks) (id : ℕ) (inode : DiskInode)
    → IsInode inode
    → SameInode (read_disk_inode fs (write_disk_inode fs disk id inode) id) inode
unfolding read_disk_inode inode_word
read-write_same fs disk id inode v = record {
  file_type = read_word fs disk id inode 0 (omega arith) v.file_type;
  size = read_word fs disk id inode 1 (omega arith) v.size;
  ref_count = read_word fs disk id inode 2 (omega arith) v.ref_count;
  direct_block = λ i h.
      read_direct fs (write_disk_inode fs disk id inode) id i h
      ∙ read_word-direct fs disk id inode i h (v.direct_block i h);
  indirect1 = read_word fs disk id inode 30 (omega arith) v.indirect1;
  indirect2 = read_word fs disk id inode 31 (omega arith) v.indirect2;
}

read-write_other :
    (fs : Gfs) (disk : Blocks) (id id' : ℕ) (inode : DiskInode)
    → id < 2 ^ 32
    → id' < 2 ^ 32
    → ¬ (id ≡ id')
    → SameInode
        (read_disk_inode fs (write_disk_inode fs disk id inode) id')
        (read_disk_inode fs disk id')
unfolding read_disk_inode
read-write_other fs disk id id' inode h g n =
    let same : (o : ℕ)
        → o + 4 ≤ 128
        → word_at
            (λ i. write_disk_inode fs disk id inode (inode_block fs id') (inode_offset id' + i)) o
          ≡ word_at (λ i. disk (inode_block fs id') (inode_offset id' + i)) o =
      λ o l. word_at-cong _ _ o (λ i k. other_byte fs disk id id' inode i h g n (omega arith)) in
    record {
      file_type = same 0 (omega arith);
      size = same 4 (omega arith);
      ref_count = same 8 (omega arith);
      direct_block = λ i l.
          read_direct fs (write_disk_inode fs disk id inode) id' i l
          ∙ same (12 + 4 * i) (omega arith)
          ∙ sym (read_direct fs disk id' i l);
      indirect1 = same 120 (omega arith);
      indirect2 = same 124 (omega arith);
    }

pub write-elsewhere :
    (fs : Gfs) (disk : Blocks) (id : ℕ) (inode : DiskInode) (b i : ℕ)
    → ¬ (b ≡ inode_block fs id)
    → write_disk_inode fs disk id inode b i ≡ disk b i
unfolding write_disk_inode write_bytes
write-elsewhere fs disk id inode b i n = ground arith

-- For numbers of 32 bits: an inode of words that `writeDiskInode` has written is what
-- `readDiskInode` of its number reads, with its 27 blocks; the inodes of all other numbers, four on
-- a block, and all other blocks stay as they were.
pub read-write_disk_inode :
    (fs : Gfs) (disk : Blocks) (id : ℕ) (inode : DiskInode)
    → id < 2 ^ 32
    → IsInode inode
    → SameInode (read_disk_inode fs (write_disk_inode fs disk id inode) id) inode
      × ((id' : ℕ)
          → id' < 2 ^ 32
          → ¬ (id ≡ id')
          → SameInode
              (read_disk_inode fs (write_disk_inode fs disk id inode) id')
              (read_disk_inode fs disk id'))
      × ((b i : ℕ) → ¬ (b ≡ inode_block fs id) → write_disk_inode fs disk id inode b i ≡ disk b i)
read-write_disk_inode fs disk id inode h v = (
  read-write_same fs disk id inode v,
  (λ id' g n. read-write_other fs disk id id' inode h g n),
  write-elsewhere fs disk id inode,
)
