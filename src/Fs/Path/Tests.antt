-- ===== src/Fs/Path/Tests.antt =====
-- Paths that lead to inodes.
use gos_v.Common.{◌≡◌, refl, arith, [], ◌∷◌}
use gos_v.Print.{chars}
use gos_v.Utils.{Bytes, string_equal, string_start_with, string_length}
use gos_v.Fs.BitMap.{Blocks, Gfs}
use gos_v.Fs.Inode.{new_empty_disk_inode, ft_directory, write_disk_inode}
use gos_v.Fs.Directory.{write_block, patched, entry_byte}
use gos_v.Fs.Path.{absolute, path_to_inode_id}
use gos_v.Fs.Path.Names.{IsName}
use gos_v.Fs.Path.Follow.{AreNames, follow, path_to_inode_id-follow}

abbrev fs : Gfs
fs = record {
  inode_bit_map = record { blocks = 1; start_block_id = 1 };
  data_bit_map = record { blocks = 1; start_block_id = 1026 };
  inode_area_start_block_id = 2;
  data_area_start_block_id = 1027;
  behind_inode = λ i. 0;
}

abbrev clear : Bytes
clear i = 0

-- The root has one entry.
abbrev one_entry : Blocks
one_entry =
    write_block
      (write_disk_inode fs (λ b i. 0) 0
        (record new_empty_disk_inode {
          file_type = ft_directory;
          size = 32;
          direct_block = λ i. 1027;
        }))
      1027 (patched clear 0 (entry_byte (chars "etc") 5))

etc-AreNames : AreNames (chars "etc" ∷ [])
unfolding AreNames IsName
etc-AreNames = ground arith

path_to_inode_id-follow_example :
    path_to_inode_id fs one_entry 3 (chars "/home") clear (chars "/etc")
    ≡ follow fs one_entry 0 (chars "etc" ∷ [])
path_to_inode_id-follow_example =
    path_to_inode_id-follow fs one_entry 3 (chars "/home") clear (chars "etc") [] (λ j l. refl)
      etc-AreNames (omega arith)

-- The path of the parent directory is read as one of the current directory.
parent : absolute (chars "/home") (chars "../x") ≡ chars "/home./x"
unfolding absolute string_equal string_start_with string_length
parent = refl
