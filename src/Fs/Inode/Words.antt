-- ===== src/Fs/Inode/Words.antt =====
-- The words of an inode on its block.
use gos_v.Common.{ℕ, ◌+◌, ◌-◌, ◌*◌, ◌/◌, ◌%◌, ◌^◌, ◌<◌, ◌≡◌, refl, ap, ◌∙◌, arith}
use gos_v.Fs.BitMap.{Blocks, Gfs}
use gos_v.Fs.Inode.{
  DiskInode, byte_of_word, word_at, inode_word, inode_byte, inode_block, inode_offset, write_bytes,
  write_disk_inode,
}

-- Every word of 32 bits is the word of its bytes.
pub bytes_word :
    (w : ℕ)
    → w < 2 ^ 32
    → w % 256 + w / 256 % 256 * 256 + w / 65536 % 256 * 65536 + w / 16777216 % 256 * 16777216 ≡ w
bytes_word w h = omega arith

byte_place : (m r : ℕ) → r < 4 → ((4 * m + r) / 4 ≡ m) × ((4 * m + r) % 4 ≡ r)
byte_place m r h = (omega arith, omega arith)

inode_byte-word :
    (inode : DiskInode) (m r : ℕ)
    → r < 4
    → inode_byte inode (4 * m + r) ≡ byte_of_word (inode_word inode m) r
unfolding inode_byte
inode_byte-word inode m r h = let (a, b) = byte_place m r h in rw (a, b) refl

inode_byte-first :
    (inode : DiskInode) (m : ℕ) → inode_byte inode (4 * m) ≡ byte_of_word (inode_word inode m) 0
inode_byte-first inode m =
    let e : 4 * m ≡ 4 * m + 0 = omega arith in
    ap (inode_byte inode) e ∙ inode_byte-word inode m 0 (omega arith)

word_at-inode_byte :
    (inode : DiskInode) (m : ℕ)
    → inode_word inode m < 2 ^ 32
    → word_at (inode_byte inode) (4 * m) ≡ inode_word inode m
unfolding word_at byte_of_word
word_at-inode_byte inode m h =
    rw
      (
        inode_byte-first inode m,
        inode_byte-word inode m 1 (omega arith),
        inode_byte-word inode m 2 (omega arith),
        inode_byte-word inode m 3 (omega arith),
      )
      (bytes_word (inode_word inode m) h)

-- A word is read from four bytes.
pub word_at-cong :
    (f g : ℕ → ℕ) (o : ℕ) → ((i : ℕ) → i < o + 4 → f i ≡ g i) → word_at f o ≡ word_at g o
unfolding word_at
word_at-cong f g o h =
    rw
      (h o (omega arith), h (o + 1) (omega arith), h (o + 2) (omega arith), h (o + 3) (omega arith))
      refl

pub written_byte :
    (fs : Gfs) (disk : Blocks) (id : ℕ) (inode : DiskInode) (i : ℕ)
    → i < 128
    → write_disk_inode fs disk id inode (inode_block fs id) (inode_offset id + i)
      ≡ inode_byte inode i
unfolding write_disk_inode write_bytes
written_byte fs disk id inode i h =
    let e : inode_offset id + i - inode_offset id ≡ i = omega arith in rw e (ground arith)

pub other_byte :
    (fs : Gfs) (disk : Blocks) (id id' : ℕ) (inode : DiskInode) (i : ℕ)
    → id < 2 ^ 32
    → id' < 2 ^ 32
    → ¬ (id ≡ id')
    → i < 128
    → write_disk_inode fs disk id inode (inode_block fs id') (inode_offset id' + i)
      ≡ disk (inode_block fs id') (inode_offset id' + i)
unfolding write_disk_inode write_bytes inode_block
other_byte fs disk id id' inode i h g n l = ground arith

pub read_word :
    (fs : Gfs) (disk : Blocks) (id : ℕ) (inode : DiskInode) (m : ℕ)
    → m < 32
    → inode_word inode m < 2 ^ 32
    → word_at
        (λ i. write_disk_inode fs disk id inode (inode_block fs id) (inode_offset id + i))
        (4 * m)
      ≡ inode_word inode m
read_word fs disk id inode m l h =
    word_at-cong _ (inode_byte inode) (4 * m) (λ i g. written_byte fs disk id inode i (omega arith))
    ∙ word_at-inode_byte inode m h
