-- ===== src/Fs/Inode/Tests.antt =====
-- An inode that is written beside another.
use gos_v.Common.{ℕ, ◌+◌, ◌≡◌, ◌<◌, ◌^◌, arith}
use gos_v.Fs.BitMap.{Blocks, Gfs}
use gos_v.Fs.Inode.{DiskInode, ft_file, read_disk_inode, write_disk_inode, inode_block}
use gos_v.Fs.Inode.Laws.{IsInode, SameInode, read-write_disk_inode}

abbrev fs : Gfs
fs = record {
  inode_bit_map = record { blocks = 1; start_block_id = 1 };
  data_bit_map = record { blocks = 4; start_block_id = 10 };
  inode_area_start_block_id = 2;
  data_area_start_block_id = 14;
  behind_inode = λ i. 0;
}

abbrev disk : Blocks
disk b i = 3

abbrev inode : DiskInode
inode = record {
  file_type = ft_file;
  size = 1300;
  ref_count = 1;
  direct_block = λ i. i + 14;
  indirect1 = 0;
  indirect2 = 0;
}

inode-IsInode : IsInode inode
inode-IsInode = record {
  file_type = omega arith;
  size = omega arith;
  ref_count = omega arith;
  direct_block = λ i h. omega arith;
  indirect1 = omega arith;
  indirect2 = omega arith;
}

read-write_disk_inode_example :
    SameInode (read_disk_inode fs (write_disk_inode fs disk 5 inode) 5) inode
    × ((id' : ℕ)
        → id' < 2 ^ 32
        → ¬ (5 ≡ id')
        → SameInode
            (read_disk_inode fs (write_disk_inode fs disk 5 inode) id')
            (read_disk_inode fs disk id'))
    × ((b i : ℕ) → ¬ (b ≡ inode_block fs 5) → write_disk_inode fs disk 5 inode b i ≡ disk b i)
read-write_disk_inode_example = read-write_disk_inode fs disk 5 inode (omega arith) inode-IsInode
