-- ===== src/Fs/Inode.antt =====
-- The inodes of kernel/fs/fs.c on their blocks.
-- An inode that the code has read is a record; the block of memory around it is not followed, nor is
-- what `Free` gives back.
pub mod Words
pub mod Laws
mod Tests
use gos_v.Common.{
  ℕ, zero, suc, ◌+◌, ◌-◌, ◌*◌, ◌/◌, ◌%◌, ◌^◌, Bool, true, false, not, ◌&&◌, Option, none, some,
  Outcome, ok, panic, hang, ◌>>=◌, ◌==◌, leb, ltb, if◌then◌else◌,
}
use gos_v.Fs.BitMap.{Blocks, Gfs, free_one_data_block_id}

-- `FT_UNKNOWN`, `FT_FILE` and `FT_DIRECTORY`
abbrev pub ft_unknown : ℕ
ft_unknown = 0

abbrev pub ft_file : ℕ
ft_file = 1

abbrev pub ft_directory : ℕ
ft_directory = 2

abbrev pub inode_direct_blocks : ℕ
inode_direct_blocks = 27

-- `struct DiskInode`. The search of directories also reads `direct_block` from 27 on: that is
-- `indirect1`, `indirect2` and then what stands behind the inode in memory.
pub record DiskInode : Type 0 where
  pub file_type : ℕ
  pub size : ℕ
  pub ref_count : ℕ
  pub direct_block : ℕ → ℕ
  pub indirect1 : ℕ
  pub indirect2 : ℕ

abbrev pub new_empty_disk_inode : DiskInode
new_empty_disk_inode = record {
  file_type = ft_unknown;
  size = 0;
  ref_count = 0;
  direct_block = λ i. 0;
  indirect1 = 0;
  indirect2 = 0;
}

-- The four bytes of a word, the low one first.
unfoldable pub byte_of_word : ℕ → ℕ → ℕ
byte_of_word w i =
    if i == 0
    then w % 2 ^ 8
    else (if i == 1
        then w / 2 ^ 8 % 2 ^ 8
        else (if i == 2 then w / 2 ^ 16 % 2 ^ 8 else w / 2 ^ 24 % 2 ^ 8))

unfoldable pub word_at : (ℕ → ℕ) → ℕ → ℕ
word_at bytes i = bytes i + bytes (i + 1) * 2 ^ 8 + bytes (i + 2) * 2 ^ 16 + bytes (i + 3) * 2 ^ 24

-- The words of `struct DiskInode` in memory.
unfoldable pub inode_word : DiskInode → ℕ → ℕ
inode_word inode k =
    if k == 0
    then inode.file_type
    else if k == 1
    then inode.size
    else if k == 2
    then inode.ref_count
    else if ltb k 30
    then inode.direct_block (k - 3)
    else if k == 30
    then inode.indirect1
    else inode.indirect2

unfoldable pub inode_byte : DiskInode → ℕ → ℕ
inode_byte inode i = byte_of_word (inode_word inode (i / 4)) (i % 4)

unfoldable pub inode_block : Gfs → ℕ → ℕ
inode_block fs id = (fs.inode_area_start_block_id + id / 4) % 2 ^ 32

abbrev pub inode_offset : ℕ → ℕ
inode_offset id = id % 4 * 128

-- A block that was read, changed by copying `n` bytes to an offset, and written.
unfoldable pub write_bytes : Blocks → ℕ → ℕ → ℕ → (ℕ → ℕ) → Blocks
write_bytes disk block offset n bytes b i =
    if b == block
    then (if leb offset i && ltb i (offset + n) then bytes (i - offset) else disk block i)
    else disk b i

unfoldable pub write_disk_inode : Gfs → Blocks → ℕ → DiskInode → Blocks
write_disk_inode fs disk id inode =
    write_bytes disk (inode_block fs id) (inode_offset id) 128 (inode_byte inode)

unfoldable pub read_disk_inode : Gfs → Blocks → ℕ → DiskInode
read_disk_inode fs disk id =
    let bytes : ℕ → ℕ = λ i. disk (inode_block fs id) (inode_offset id + i) in
    record {
      file_type = word_at bytes 0;
      size = word_at bytes 4;
      ref_count = word_at bytes 8;
      direct_block = λ i. if ltb i 29 then word_at bytes (12 + 4 * i) else fs.behind_inode i;
      indirect1 = word_at bytes 120;
      indirect2 = word_at bytes 124;
    }

pub is_directory : Gfs → Blocks → ℕ → Bool
is_directory fs disk id = (read_disk_inode fs disk id).file_type == ft_directory

pub is_file : Gfs → Blocks → ℕ → Bool
is_file fs disk id = (read_disk_inode fs disk id).file_type == ft_file

-- `(size + 511) / 512`
abbrev pub block_count : ℕ → ℕ
block_count size = (size + 511) % 2 ^ 32 / 512

unfoldable pub free_blocks : Gfs → DiskInode → ℕ → ℕ → Blocks → Blocks
free_blocks fs inode zero i disk = disk
free_blocks fs inode (suc rounds) i disk =
    free_blocks fs inode rounds (i + 1) (free_one_data_block_id fs disk (inode.direct_block i))

-- `none` is the value of a function that ends without `return`.
unfoldable pub clear_file_content_by_inode_id : Gfs → Blocks → ℕ → Outcome (Option Bool × Blocks)
clear_file_content_by_inode_id fs disk id =
    let inode = read_disk_inode fs disk id in
    let blocks = block_count inode.size in
    if inode.file_type == ft_file
    then (if ltb inode_direct_blocks blocks
        then panic
        else ok (
          none,
          write_disk_inode fs (free_blocks fs inode blocks 0 disk) id (record inode {
            direct_block = λ i. if ltb i blocks then 0 else inode.direct_block i;
            size = 0;
          }),
        ))
    else ok (some false, disk)
