-- ===== src/Fs/Directory.antt =====
-- The directories of kernel/fs/fs.c: entries of 32 bytes, 16 to a block.
-- A name is the list of bytes up to the end of its object. What the functions print is left out.
pub mod Find
pub mod Names
pub mod Created
pub mod Place
pub mod Create
mod Tests
use gos_v.Common.{
  ℕ, zero, suc, ◌+◌, ◌-◌, ◌*◌, ◌/◌, ◌%◌, ◌^◌, Bool, true, false, not, ◌&&◌, List, [], ◌∷◌, Option,
  none, some, Outcome, ok, panic, hang, ◌>>=◌, ◌==◌, leb, ltb, if◌then◌else◌, get_or,
}
use gos_v.Common.Search.{first_some}
use gos_v.Utils.{string_equal, string_length, char_count}
use gos_v.Fs.BitMap.{
  Blocks, Gfs, with_index, allocate_one_inode_id, allocate_one_data_block_id, free_one_inode_id,
}
use gos_v.Fs.Inode.{
  DiskInode, new_empty_disk_inode, ft_directory, inode_direct_blocks, byte_of_word, word_at,
  block_count, write_bytes, read_disk_inode, write_disk_inode, clear_file_content_by_inode_id,
}

-- -1
abbrev pub no_inode : ℕ
no_inode = 2 ^ 32 - 1

-- The bytes from a place on.
unfoldable pub bytes_from : (ℕ → ℕ) → ℕ → ℕ → List ℕ
bytes_from buffer i zero = []
bytes_from buffer i (suc n) = buffer i ∷ bytes_from buffer (i + 1) n

-- `entry->Name` and `entry->InodeID`. The name is read up to the end of the block's buffer.
unfoldable pub entry_name : (ℕ → ℕ) → ℕ → List ℕ
entry_name buffer j = bytes_from buffer (32 * j + 4) (512 - (32 * j + 4))

unfoldable pub entry_inode_id : (ℕ → ℕ) → ℕ → ℕ
entry_inode_id buffer j = word_at buffer (32 * j)

-- The loops over the entries of a block and over the blocks, up to an entry of the name.
unfoldable pub find_in_block : List ℕ → (ℕ → ℕ) → Option (ℕ × ℕ)
find_in_block name buffer =
    first_some
      (λ j.
        if string_equal (entry_name buffer j) name then some (j, entry_inode_id buffer j) else none)
      16 0

unfoldable pub find_entry : Blocks → DiskInode → List ℕ → Option (ℕ × (ℕ × ℕ))
find_entry disk inode name =
    first_some (λ i. with_index i (find_in_block name (disk (inode.direct_block i))))
      (block_count inode.size) 0

-- The number of an entry that was found, else 0.
abbrev pub found_id : Option (ℕ × (ℕ × ℕ)) → ℕ
found_id none = 0
found_id (some (i, (j, id))) = id

unfoldable pub find_inode_id_by_name_from_directory : Gfs → Blocks → ℕ → List ℕ → ℕ
find_inode_id_by_name_from_directory fs disk id name =
    let inode = read_disk_inode fs disk id in
    if string_equal name []
    then 0
    else if inode.file_type == ft_directory
    then found_id (find_entry disk inode name)
    else 0

-- A buffer with 32 bytes copied to an offset, and a block that is written from a buffer.
unfoldable pub patched : (ℕ → ℕ) → ℕ → (ℕ → ℕ) → ℕ → ℕ
patched buffer offset entry k =
    if leb offset k && ltb k (offset + 32) then entry (k - offset) else buffer k

unfoldable pub write_block : Blocks → ℕ → (ℕ → ℕ) → Blocks
write_block disk block buffer b k = if b == block then buffer k else disk b k

-- An entry with the number -1 and no name.
unfoldable pub removed_byte : ℕ → ℕ
removed_byte i = if ltb i 4 then byte_of_word no_inode i else 0

-- An entry removed: what it led to is freed, and the entry and the inode of the directory are written.
unfoldable pub remove_entry :
    Gfs → Blocks → ℕ → DiskInode → Option (ℕ × (ℕ × ℕ)) → Outcome (Bool × Blocks)
remove_entry fs disk id inode none = ok (false, disk)
remove_entry fs disk id inode (some (i, (j, entry_id))) = do
  (cleared, disk1) ← clear_file_content_by_inode_id fs disk entry_id
  ok (
    true,
    write_disk_inode fs
        (write_block (free_one_inode_id fs disk1 entry_id) (inode.direct_block i)
          (patched (disk (inode.direct_block i)) (32 * j) removed_byte))
        id (record inode { size = (inode.size + (2 ^ 32 - 32)) % 2 ^ 32 }),
  )

unfoldable pub remove_inode_by_name_from_directory :
    Gfs → Blocks → ℕ → List ℕ → Outcome (Bool × Blocks)
remove_inode_by_name_from_directory fs disk id name =
    let inode = read_disk_inode fs disk id in
    if inode.file_type == ft_directory
    then remove_entry fs disk id inode (find_entry disk inode name)
    else ok (false, disk)

-- The bytes of `struct DirectoryEntry` as `newDirectoryEntry` fills it: the name without its NUL in
-- memory that `Malloc` has cleared.
unfoldable pub entry_byte : List ℕ → ℕ → ℕ → ℕ
entry_byte name id i =
    if ltb i 4
    then byte_of_word id i
    else (if ltb (i - 4) (string_length name) then get_or name (i - 4) 0 else 0)

-- `dirInode->DirectBlock[size / 512]` is set to a block that was given out.
unfoldable pub with_block : DiskInode → Outcome (ℕ × Blocks) → Outcome (DiskInode × Blocks)
with_block inode r = do
  (block, disk) ← r
  ok (
    record inode {
      direct_block = λ i. if i == inode.size / 512 then block else inode.direct_block i;
    },
    disk,
  )

-- The block for the next entry: a new one where the last is full.
unfoldable pub place_for_entry : Gfs → Blocks → DiskInode → Outcome (DiskInode × Blocks)
place_for_entry fs disk inode =
    if inode.size % 512 == 0
    then with_block inode (allocate_one_data_block_id fs disk)
    else ok (inode, disk)

-- The disk after the entry, the inode of the file and that of the directory are written. `buffer` is
-- what the code has read of the entry's block.
unfoldable pub write_entry : Gfs → Blocks → ℕ → DiskInode → ℕ → (ℕ → ℕ) → List ℕ → ℕ → ℕ → Blocks
write_entry fs disk id inode block buffer name file_type file_id =
    let disk1 =
      write_block disk block (patched buffer (inode.size % 512) (entry_byte name file_id)) in
    let file_inode = record new_empty_disk_inode { file_type = file_type; ref_count = 1 } in
    write_disk_inode fs (write_disk_inode fs disk1 file_id file_inode) id
      (record inode { size = (inode.size + 32) % 2 ^ 32 })

-- The entry is written behind the others.
unfoldable pub append_entry : Gfs → Blocks → ℕ → DiskInode → List ℕ → ℕ → Outcome (ℕ × Blocks)
append_entry fs disk id inode name file_type = do
  (inode', disk1) ← place_for_entry fs disk inode
  (file_id, disk2) ← allocate_one_inode_id fs disk1
  ok (
    file_id,
    write_entry fs disk2 id inode' (inode'.direct_block (inode'.size / 512))
        (disk1 (inode'.direct_block (inode'.size / 512))) name file_type file_id,
  )

unfoldable pub create_file : Gfs → Blocks → ℕ → ℕ → List ℕ → ℕ → Outcome (ℕ × Blocks)
create_file fs disk current id name file_type =
    let id = if id == no_inode then current else id in
    let inode = read_disk_inode fs disk id in
    if char_count name b'/' == 0
    then (if inode.file_type == ft_directory
        then (if find_inode_id_by_name_from_directory fs disk id name == 0
            then (if leb inode_direct_blocks (inode.size / 512)
                then panic
                else append_entry fs disk id inode name file_type)
            else ok (no_inode, disk))
        else panic)
    else ok (no_inode, disk)
