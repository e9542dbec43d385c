-- ===== src/Fs/BitMap/Tests.antt =====
-- The allocation of an inode where the first two are in use.
use gos_v.Common.{◌≡◌, refl, ok, ◌==◌, if◌then◌else◌}
use gos_v.Common.Bits.{has_bit, set_bit}
use gos_v.Common.Search.{first_from, first_some}
use gos_v.Fs.BitMap.{
  Blocks, Gfs, write_byte, clear_in_byte, clear_in_block, clear_in_map, allocate_bit,
  allocate_one_inode_id,
}
use gos_v.Fs.BitMap.Laws.{Allocated, allocate_bit-Allocated}

-- Byte 0 of block 1 has its two lowest bits set.
abbrev two_used : Blocks
two_used b j = if b == 1 then (if j == 0 then 3 else 0) else 0

abbrev fs : Gfs
fs = record {
  inode_bit_map = record { blocks = 1; start_block_id = 1 };
  data_bit_map = record { blocks = 4; start_block_id = 10 };
  inode_area_start_block_id = 2;
  data_area_start_block_id = 14;
  behind_inode = λ i. 0;
}

abbrev third_used : Blocks
third_used = write_byte two_used 1 0 7

allocates_third : allocate_one_inode_id fs two_used ≡ ok (2, third_used)
unfolding allocate_one_inode_id allocate_bit clear_in_map clear_in_block clear_in_byte first_from
    first_some has_bit set_bit
allocates_third = refl

allocate_bit-Allocated_example :
    Allocated two_used fs.inode_bit_map (allocate_bit two_used fs.inode_bit_map)
allocate_bit-Allocated_example = allocate_bit-Allocated two_used fs.inode_bit_map
