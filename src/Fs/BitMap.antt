-- ===== src/Fs/BitMap.antt =====
-- The bitmaps of inodes and data blocks of kernel/fs/fs.c.
-- `Blocks` is what `DiskCacheRead` and `DiskCacheWrite` see: the bytes of each block. The lock around
-- the operations has no part in a run that no other process interrupts. A map has fewer than 2 ^ 20
-- blocks, so that the number of a bit is a `u32`.
pub mod Find
pub mod Laws
mod Tests
use gos_v.Common.{
  ℕ, ◌+◌, ◌-◌, ◌*◌, ◌/◌, ◌%◌, ◌^◌, Bool, true, false, not, Option, none, some, Outcome, ok, panic,
  hang, ◌>>=◌, ◌==◌, if◌then◌else◌,
}
use gos_v.Common.Bits.{has_bit, set_bit, clear_bit}
use gos_v.Common.Search.{first_from, first_some}

abbrev pub Blocks : Type 0
Blocks = ℕ → ℕ → ℕ

-- `DiskCacheWrite` of a block that was read and changed in one byte.
abbrev pub write_byte : Blocks → ℕ → ℕ → ℕ → Blocks
write_byte disk block j v b i = if b == block then (if i == j then v else disk b i) else disk b i

-- `struct BitMap`
pub record BitMap : Type 0 where
  pub blocks : ℕ
  pub start_block_id : ℕ

abbrev pub with_index {ℓ} : {A : Type ℓ} → ℕ → Option A → Option (ℕ × A)
with_index i none = none
with_index i (some a) = some (i, a)

-- The loops over the bits of a byte, the bytes of a block and the blocks of the map.
unfoldable pub clear_in_byte : ℕ → Option ℕ
clear_in_byte byte = first_from (λ k. not (has_bit byte k)) 8 0

unfoldable pub clear_in_block : (ℕ → ℕ) → Option (ℕ × ℕ)
clear_in_block buffer = first_some (λ j. with_index j (clear_in_byte (buffer j))) 512 0

unfoldable pub clear_in_map : Blocks → BitMap → Option (ℕ × (ℕ × ℕ))
clear_in_map disk map =
    first_some (λ i. with_index i (clear_in_block (disk (map.start_block_id + i)))) map.blocks 0

-- What `allocateOneInodeID` and `allocateOneDataBlockID` do alike: the number of the bit that was set.
unfoldable pub allocate_bit : Blocks → BitMap → Outcome (ℕ × Blocks)
allocate_bit disk map = elim (clear_in_map disk map) [
  | none ↦ panic
  | some (i, (j, k)) ↦
      let block = map.start_block_id + i in
      ok (i * 512 * 8 + j * 8 + k, write_byte disk block j (set_bit (disk block j) k))
]

-- What `freeOneInodeID` and `freeOneDataBlockID` do alike.
unfoldable pub free_bit : Blocks → BitMap → ℕ → Blocks
free_bit disk map id =
    let block = map.start_block_id + id / (512 * 8) in
    let offset = id % (512 * 8) / 8 in
    write_byte disk block offset (clear_bit (disk block offset) (id % 8))

-- The part of `struct GFS` that the operations here read, and the words that stand in memory behind an
-- inode that was read, by the number of the direct block that they would be.
pub record Gfs : Type 0 where
  pub inode_bit_map : BitMap
  pub data_bit_map : BitMap
  pub inode_area_start_block_id : ℕ
  pub data_area_start_block_id : ℕ
  pub behind_inode : ℕ → ℕ

unfoldable pub allocate_one_inode_id : Gfs → Blocks → Outcome (ℕ × Blocks)
allocate_one_inode_id fs disk = allocate_bit disk fs.inode_bit_map

unfoldable pub free_one_inode_id : Gfs → Blocks → ℕ → Blocks
free_one_inode_id fs disk id = free_bit disk fs.inode_bit_map id

unfoldable pub allocate_one_data_block_id : Gfs → Blocks → Outcome (ℕ × Blocks)
allocate_one_data_block_id fs disk = do
  (id, disk') ← allocate_bit disk fs.data_bit_map
  ok ((id + fs.data_area_start_block_id) % 2 ^ 32, disk')

-- The block is filled with zeros first.
unfoldable pub free_one_data_block_id : Gfs → Blocks → ℕ → Blocks
free_one_data_block_id fs disk block_id =
    free_bit (λ b j. if b == block_id then 0 else disk b j) fs.data_bit_map
      ((block_id + (2 ^ 32 - fs.data_area_start_block_id)) % 2 ^ 32)

-- The bit of a number.
unfoldable pub in_use : Blocks → BitMap → ℕ → Bool
in_use disk map id = has_bit (disk (map.start_block_id + id / 4096) (id % 4096 / 8)) (id % 8)
