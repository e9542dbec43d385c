-- ===== src/Fs/Content.antt =====
-- The contents of files of kernel/fs/fs.c: writing and printing, given the number of the inode that
-- `pathToInodeID` gives. A content ends with the byte `EOF`, which its size counts;
-- a file has fewer than 27 full blocks.
pub mod Printed
pub mod Written
mod Tests
use gos_v.Common.{
  ℕ, zero, suc, ◌+◌, ◌-◌, ◌*◌, ◌/◌, ◌%◌, ◌^◌, Bool, true, false, not, ◌&&◌, List, [], ◌∷◌, ◌++◌,
  Option, none, some, Outcome, ok, panic, hang, ◌>>=◌, ◌==◌, leb, ltb, if◌then◌else◌, get_or,
}
use gos_v.Utils.{string_length}
use gos_v.Fs.BitMap.{Blocks, Gfs, allocate_one_data_block_id}
use gos_v.Fs.Inode.{
  DiskInode, ft_file, block_count, read_disk_inode, write_disk_inode,
  clear_file_content_by_inode_id,
}
use gos_v.Fs.Directory.{write_block, with_block, place_for_entry}

-- `(u8)EOF`
abbrev pub end_of_file : ℕ
end_of_file = 255

-- What `WriteFileContent` ends with: its value and the disk, or a write outside its buffer of 512
-- bytes.
pub data Write : Type 0 where
  returns : Bool → Blocks → Write
  outside : Write

-- The buffer with the content at an offset and the end of the file behind it.
unfoldable pub with_content : (ℕ → ℕ) → ℕ → List ℕ → ℕ → ℕ
with_content buffer at content k =
    if k == at + string_length content
    then end_of_file
    else if leb at k && ltb k (at + string_length content)
    then get_or content (k - at) 0
    else buffer k

-- The buffer of an empty file begins with the end of the file.
unfoldable pub begun : ℕ → (ℕ → ℕ) → ℕ → ℕ
begun size buffer k = if size == 0 && k == 0 then end_of_file else buffer k

-- The content is written over the end of the file in the block `block`; `size` is at least 1.
unfoldable pub write_content : Gfs → Blocks → ℕ → DiskInode → ℕ → (ℕ → ℕ) → ℕ → List ℕ → Write
write_content fs disk id inode block buffer size content =
    let length = string_length content in
    if not (size % 512 == 0) && ltb (size % 512 - 1 + length) 512
    then returns true (
        write_disk_inode fs (write_block disk block (with_content buffer (size % 512 - 1) content))
          id (record inode { size = (size + length) % 2 ^ 32 }))
    else outside

-- The writing behind what the file has; a full block is followed by a new one.
unfoldable pub append_content : Gfs → Blocks → ℕ → List ℕ → Outcome Write
append_content fs disk id content = do
  (inode, disk1) ← place_for_entry fs disk (read_disk_inode fs disk id)
  let block = inode.direct_block (inode.size / 512) in
      ok (
        write_content fs disk1 id inode block (begun inode.size (disk1 block))
          (if inode.size == 0 then 1 else inode.size) content)

-- `WriteFileContent`
unfoldable pub write_file_content : Gfs → Blocks → ℕ → List ℕ → Bool → Outcome Write
write_file_content fs disk id content trunc =
    let cleared =
      clear_file_content_by_inode_id fs disk id >>= (λ r. append_content fs r.1 id content) in
    if (read_disk_inode fs disk id).file_type == ft_file
    then (if trunc then cleared else append_content fs disk id content)
    else ok (returns false disk)

-- A character printed before what is printed behind it.
abbrev pub printed : ℕ → List ℕ × Option ℕ → List ℕ × Option ℕ
printed c (cs, n) = (c ∷ cs, n)

-- The bytes of a block, from the place `j` on: what is printed, and how many lines are left to be
-- printed, or `none` at the end of the file or of the last line.
unfoldable pub print_bytes : ℕ → (ℕ → ℕ) → ℕ → ℕ → List ℕ × Option ℕ
print_bytes zero buffer j n = ([], some n)
print_bytes (suc rounds) buffer j n =
    let in_line = printed (buffer j) (print_bytes rounds buffer (j + 1) n) in
    let next_line = printed (buffer j) (print_bytes rounds buffer (j + 1) (n - 1)) in
    if buffer j == end_of_file
    then ([], none)
    else if buffer j == b'\n'
    then (if n == 1 then (b'\n' ∷ [], none) else next_line)
    else in_line

-- What is printed of one block and of those behind it.
abbrev pub print_on : List ℕ × Option ℕ → (ℕ → List ℕ × Option Bool) → List ℕ × Option Bool
print_on (cs, none) rest = (cs, some true)
print_on (cs, some n) rest = (cs ++ (rest n).0, (rest n).1)

-- The loop over the blocks. Behind the last one the function ends without `return`.
unfoldable pub print_blocks : ℕ → Blocks → DiskInode → ℕ → ℕ → List ℕ × Option Bool
print_blocks zero disk inode i n = (b'\n' ∷ [], none)
print_blocks (suc rounds) disk inode i n =
    print_on (print_bytes 512 (disk (inode.direct_block i)) 0 n)
      (print_blocks rounds disk inode (i + 1))

-- What `PrintFileContent` prints, and its value; for what is no file it prints that.
pub data Print : Type 0 where
  prints : List ℕ × Option Bool → Print
  not_file : Print

unfoldable pub print_file_content : Gfs → Blocks → ℕ → ℕ → Print
print_file_content fs disk id n =
    let inode = read_disk_inode fs disk id in
    if inode.file_type == ft_file
    then (if n == 0
        then prints (b'\n' ∷ [], some true)
        else prints (print_blocks (block_count inode.size) disk inode 0 n))
    else not_file
