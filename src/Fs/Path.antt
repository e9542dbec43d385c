-- ===== src/Fs/Path.antt =====
-- The paths of kernel/fs/fs.c.
-- `current` and `current_path` are `currentDirectoryInodeID` and the text of `currentPath`. The buffer
-- `temp` is the text in it, which has fewer than 256 characters; what `pathBackStep` does to it is
-- overwritten before it is read.
pub mod Names
pub mod Follow
mod Tests
use gos_v.Common.{
  ℕ, zero, suc, ◌+◌, ◌-◌, Bool, true, false, not, ◌&&◌, ◌||◌, List, [], ◌∷◌, ◌++◌, ◌==◌, leb, ltb,
  if◌then◌else◌,
}
use gos_v.Print.{chars}
use gos_v.Utils.{
  Bytes, store, memory_free, string_equal, string_start_with, string_length, char_count,
}
use gos_v.Fs.BitMap.{Blocks, Gfs}
use gos_v.Fs.Directory.{no_inode, bytes_from, find_inode_id_by_name_from_directory}

-- `path + 1`
abbrev pub behind_first : List ℕ → List ℕ
behind_first [] = []
behind_first (c ∷ path) = path

-- The inode of the name in the buffer of 28 bytes.
unfoldable pub find_name : Gfs → Blocks → ℕ → Bytes → ℕ
find_name fs disk id name = find_inode_id_by_name_from_directory fs disk id (bytes_from name 0 28)

-- The last name of a path.
unfoldable pub last_name : Gfs → Blocks → ℕ → Bytes → ℕ → ℕ
last_name fs disk id name k =
    let next = find_name fs disk id name in
    if k == 0 then id else (if next == 0 then no_inode else next)

-- The loop over an absolute path, behind its first character.
unfoldable pub walk : Gfs → Blocks → List ℕ → ℕ → Bytes → ℕ → ℕ
walk fs disk [] id name k = last_name fs disk id name k
walk fs disk (c ∷ path) id name k =
    let next = find_name fs disk id name in
    let deeper = walk fs disk path next (memory_free 0 28 name) 0 in
    let same = walk fs disk path id (store name k c) (k + 1) in
    if c == 0
    then last_name fs disk id name k
    else if c == b'/'
    then (if next == 0 then no_inode else deeper)
    else same

-- The text that is put into `temp`: the path, or the path behind that of the current directory.
unfoldable pub absolute : List ℕ → List ℕ → List ℕ
absolute current_path path =
    if string_start_with path (chars "/")
    then path
    else if string_start_with path (chars ".")
    then (if string_equal current_path (chars "/")
        then b'/' ∷ behind_first (behind_first path)
        else current_path ++ behind_first path)
    else (if string_equal current_path (chars "/")
        then b'/' ∷ path
        else current_path ++ b'/' ∷ path)

-- `pathToInodeID`, given what `name` has at first and the result for `path + 2`.
unfoldable pub resolve : Gfs → Blocks → ℕ → List ℕ → Bytes → List ℕ → ℕ → ℕ
resolve fs disk current current_path name path again =
    if string_equal path (chars ".") || string_equal path (chars "./")
    then current
    else if char_count path b'/' == 0
    then find_inode_id_by_name_from_directory fs disk current path
    else if string_start_with path (chars "..") && current == 0
    then (if leb (string_length path) 3 then 0 else again)
    else if string_start_with path (chars ".") && leb (string_length path) 2
    then current
    else walk fs disk (behind_first (absolute current_path path)) 0 name 0

unfoldable pub path_to_inode_id : Gfs → Blocks → ℕ → List ℕ → Bytes → List ℕ → ℕ
path_to_inode_id fs disk current current_path name [] =
    resolve fs disk current current_path name [] 0
path_to_inode_id fs disk current current_path name (c ∷ []) =
    resolve fs disk current current_path name (c ∷ []) 0
path_to_inode_id fs disk current current_path name (c ∷ d ∷ path) =
    resolve fs disk current current_path name (c ∷ d ∷ path)
      (path_to_inode_id fs disk current current_path name path)
