-- ===== src/Fs/Content/Tests.antt =====
-- A file that is written and printed.
use gos_v.Common.{◌≡◌, refl, arith, true}
use gos_v.Print.{chars}
use gos_v.Fs.BitMap.{Blocks, Gfs}
use gos_v.Fs.Inode.{DiskInode, new_empty_disk_inode, ft_file, read_disk_inode, write_disk_inode}
use gos_v.Fs.Inode.Laws.{IsInode, SameInode, read-write_same}
use gos_v.Fs.Directory.Created.{IsLaidOut}
use gos_v.Fs.Content.{outside, write_content, write_file_content}
use gos_v.Fs.Content.Printed.{IsContent}
use gos_v.Fs.Content.Written.{Stored, write_file_content-Stored}

abbrev fs : Gfs
fs = record {
  inode_bit_map = record { blocks = 1; start_block_id = 1 };
  data_bit_map = record { blocks = 1; start_block_id = 1026 };
  inode_area_start_block_id = 2;
  data_area_start_block_id = 1027;
  behind_inode = λ i. 0;
}

fs-IsLaidOut : IsLaidOut fs
fs-IsLaidOut = record {
  inode_ids = omega arith;
  inode_map = omega arith;
  inode_area = omega arith;
  data_map = omega arith;
  data_area = omega arith;
}

abbrev zeros : Blocks
zeros b i = 0

abbrev file : DiskInode
file = record new_empty_disk_inode { file_type = ft_file; ref_count = 1 }

abbrev one_file : Blocks
one_file = write_disk_inode fs zeros 5 file

file-read : SameInode (read_disk_inode fs one_file 5) file
file-read = read-write_same fs zeros 5 file (record {
  file_type = omega arith;
  size = omega arith;
  ref_count = omega arith;
  direct_block = λ i l. omega arith;
  indirect1 = omega arith;
  indirect2 = omega arith;
})

file-IsInode : IsInode (read_disk_inode fs one_file 5)
file-IsInode =
    let s = file-read in
    record {
      file_type = omega (arith, s.file_type);
      size = omega (arith, s.size);
      ref_count = omega (arith, s.ref_count);
      direct_block = λ i l. let q = s.direct_block i l in omega (arith, q);
      indirect1 = omega (arith, s.indirect1);
      indirect2 = omega (arith, s.indirect2);
    }

text-IsContent : IsContent (chars "to be\n")
unfolding IsContent
text-IsContent = ground arith

write_file_content-Stored_example :
    Stored fs one_file 5 2
      (chars "to be\n")
      (write_file_content fs one_file 5 (chars "to be\n") true)
write_file_content-Stored_example =
    let s = file-read in
    write_file_content-Stored fs one_file 5 2 (chars "to be\n") fs-IsLaidOut (omega arith)
      file-IsInode s.file_type (omega (arith, s.size)) text-IsContent (omega arith) (omega arith)

-- Behind a file that fills its block the content would be written before the buffer.
full_block : write_content fs zeros 5 file 1027 (λ i. 255) 512 (chars "x") ≡ outside
unfolding write_content
full_block = refl
