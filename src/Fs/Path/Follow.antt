-- ===== src/Fs/Path/Follow.antt =====
-- An absolute path of kernel/fs/fs.c is followed from directory to directory.
use gos_v.Common.{
  ℕ, ◌+◌, ◌<◌, ◌≡◌, refl, ap, sym, ◌∙◌, subst, inl, inr, arith, Bool, true, false, Bool-cases,
  ==→eq, ==→ne, ne→==, List, [], ◌∷◌, ◌++◌, length, length-append, get_or, get_or-last,
  get_or-before, ◌==◌, if◌then◌else◌,
}
use mathlib.Core.List.{append-nil}
use gos_v.Print.{chars}
use gos_v.Utils.{Bytes, store, memory_free, string_equal, string_start_with, char_count}
use gos_v.Utils.Text.{text, string_equal_iff, string_start_with_iff, char_count-first}
use gos_v.Utils.Memory.{memory_free-memory_set, memory_set_lem}
use gos_v.Fs.BitMap.{Blocks, Gfs}
use gos_v.Fs.Directory.{no_inode, bytes_from, find_inode_id_by_name_from_directory}
use gos_v.Fs.Path.{find_name, last_name, walk, absolute, resolve, path_to_inode_id}
use gos_v.Fs.Path.Names.{find_inode_id-text, IsName, text-IsName, text-bytes_from}

-- Names of 1 to 27 characters.
unfoldable pub AreNames : List (List ℕ) → Type 0
AreNames [] = Unit
AreNames (w ∷ ws) = IsName w × (0 < length w) × (length w < 28) × AreNames ws

-- The path from the root: a slash before each name.
abbrev pub joined : List (List ℕ) → List ℕ
joined [] = []
joined (w ∷ ws) = b'/' ∷ w ++ joined ws

-- The inode that the names lead to from an inode on, or -1 when one of them is not found.
unfoldable pub follow : Gfs → Blocks → ℕ → List (List ℕ) → ℕ
follow fs disk id [] = id
follow fs disk id (w ∷ ws) =
    let next = find_inode_id_by_name_from_directory fs disk id w in
    let further = follow fs disk next ws in if next == 0 then no_inode else further

-- The buffer has a name, and zeros behind it.
abbrev pub HasName : Bytes → List ℕ → Type 0
HasName name v = (j : ℕ) → j < 28 → name j ≡ get_or v j 0

memory_free-HasName : (name : Bytes) → HasName (memory_free 0 28 name) []
memory_free-HasName name j h =
    ap (λ m. m j) (memory_free-memory_set 0 28 name)
    ∙ memory_set_lem 0 0 28 name j
    ∙ ground (arith, h)

store-HasName :
    (name : Bytes) (v : List ℕ) (c : ℕ)
    → HasName name v
    → HasName (store name (length v) c) (v ++ c ∷ [])
store-HasName name v c h j l = elim (Bool-cases (j == length v)) [
  | inl e ↦ rw e (sym (get_or-last v c j 0 (==→eq j (length v) e)))
  | inr e ↦ rw e (h j l ∙ sym (get_or-before v c j 0 (==→ne j (length v) e)))
]

find_name-HasName :
    (fs : Gfs) (disk : Blocks) (id : ℕ) (name : Bytes) (w : List ℕ)
    → HasName name w
    → IsName w
    → length w < 28
    → find_name fs disk id name ≡ find_inode_id_by_name_from_directory fs disk id w
unfolding find_name
find_name-HasName fs disk id name w h p l = find_inode_id-text fs disk id (bytes_from name 0 28) w (
    text-bytes_from name w 0 28 p l
      (λ j x. let z : 0 + j ≡ j = omega arith in ap name z ∙ h j (omega (arith, x, l)))
    ∙ sym (text-IsName w p))

append_one : (v : List ℕ) (c : ℕ) (w : List ℕ) → (v ++ c ∷ []) ++ w ≡ v ++ c ∷ w
append_one [] c w = refl
append_one (x ∷ v) c w = ap (λ l. x ∷ l) (append_one v c w)

-- The loop over the characters of a name.
walk-name :
    (fs : Gfs) (disk : Blocks) (w rest : List ℕ) (id : ℕ) (name : Bytes) (v : List ℕ)
    → HasName name v
    → IsName w
    → (name' : Bytes) × HasName name' (v ++ w)
      × (walk fs disk (w ++ rest) id name (length v) ≡ walk fs disk rest id name' (length (v ++ w)))
unfolding walk IsName
walk-name fs disk [] rest id name v h p = (
  name,
  subst (HasName name) (sym (append-nil v)) h,
  ap (λ l. walk fs disk rest id name (length l)) (sym (append-nil v)),
)
walk-name fs disk (c ∷ w) rest id name v h (p, q, r) =
    let k = length-append v (c ∷ []) in
    let (name', h', e) =
      walk-name fs disk w rest id (store name (length v) c) (v ++ c ∷ []) (store-HasName name v c h)
        r in
    (
      name',
      subst (HasName name') (append_one v c w) h',
      rw (ne→== c 0 (λ z. omega (arith, z, p)), ne→== c b'/' q)
          (ap (walk fs disk (w ++ rest) id (store name (length v) c)) (sym k)
            ∙ e
            ∙ ap (λ l. walk fs disk rest id name' (length l)) (append_one v c w)),
    )

walk-follow :
    (fs : Gfs) (disk : Blocks) (w : List ℕ) (ws : List (List ℕ)) (id : ℕ) (name : Bytes)
    → HasName name []
    → AreNames (w ∷ ws)
    → walk fs disk (w ++ joined ws) id name 0 ≡ follow fs disk id (w ∷ ws)
unfolding follow AreNames walk last_name
walk-follow fs disk w [] id name h (p, z, l, a) =
    let (name', h', e) = walk-name fs disk w [] id name [] h p in
    e
    ∙ rw
        (ne→== (length w) 0 (λ q. omega (arith, q, z)), find_name-HasName fs disk id name' w h' p l)
        refl
walk-follow fs disk w (w' ∷ ws) id name h (p, z, l, a) =
    let (name', h', e) = walk-name fs disk w (joined (w' ∷ ws)) id name [] h p in
    let f =
      walk-follow fs disk w' ws (find_inode_id_by_name_from_directory fs disk id w)
        (memory_free 0 28 name') (memory_free-HasName name') a in
    e ∙ rw (find_name-HasName fs disk id name' w h' p l, f) refl

false_unless : (b : Bool) → ¬ (b ≡ true) → b ≡ false
false_unless true n = absurd (n refl)
false_unless false n = refl

-- A path that begins with a slash.
module _ (path : List ℕ) where
  not_equal :
      (d : ℕ) (t : List ℕ) → 0 < d → ¬ (d ≡ b'/') → string_equal (b'/' ∷ path) (d ∷ t) ≡ false
  not_equal d t z n = false_unless _ (λ e.
      let q = ap (λ l. get_or l 0 0) ((string_equal_iff (b'/' ∷ path) (d ∷ t)).0 e) in
      n (sym (q ∙ first_of d t z)))
    where
      first_of : (d : ℕ) (t : List ℕ) → 0 < d → get_or (text (d ∷ t)) 0 0 ≡ d
      first_of d t z = rw (ne→== d 0 (λ e. omega (arith, e, z))) refl

  not_start :
      (d : ℕ) (t : List ℕ) → 0 < d → ¬ (d ≡ b'/') → string_start_with (b'/' ∷ path) (d ∷ t) ≡ false
  not_start d t z n = false_unless _ (λ e.
      let (rest, p) = (string_start_with_iff (b'/' ∷ path) (d ∷ t)).0 e in
      n (sym (ap (λ l. get_or l 0 0) p ∙ first_of d t rest z)))
    where
      first_of : (d : ℕ) (t rest : List ℕ) → 0 < d → get_or (text (d ∷ t) ++ rest) 0 0 ≡ d
      first_of d t rest z = rw (ne→== d 0 (λ e. omega (arith, e, z))) refl

  starts : string_start_with (b'/' ∷ path) (chars "/") ≡ true
  starts = (string_start_with_iff (b'/' ∷ path) (chars "/")).1 (text path, refl)

  resolve-walk :
      (fs : Gfs) (disk : Blocks) (current : ℕ) (current_path : List ℕ) (name : Bytes) (again : ℕ)
      → length path < 256
      → resolve fs disk current current_path name (b'/' ∷ path) again ≡ walk fs disk path 0 name 0
  unfolding resolve absolute
  resolve-walk fs disk current current_path name again l =
      let k = char_count-first b'/' path (omega arith) (omega (arith, l)) in
      rw
        (
          not_equal b'.' [] (omega arith) (λ q. omega (arith, q)),
          not_equal b'.' (b'/' ∷ []) (omega arith) (λ q. omega (arith, q)),
          ne→== (char_count (b'/' ∷ path) b'/') 0 (λ q. omega (arith, q, k)),
          not_start b'.' (b'.' ∷ []) (omega arith) (λ q. omega (arith, q)),
          not_start b'.' [] (omega arith) (λ q. omega (arith, q)),
          starts,
        )
        refl

-- `pathToInodeID` of an absolute path of less than 256 characters, its names being of 1 to 27
-- characters and its buffer clear at first, is the inode that the names lead to from the root, or
-- -1 when one of them is not found.
pub path_to_inode_id-follow :
    (fs : Gfs) (disk : Blocks) (current : ℕ) (current_path : List ℕ) (name : Bytes) (w : List ℕ)
    (ws : List (List ℕ))
    → HasName name []
    → AreNames (w ∷ ws)
    → length (joined (w ∷ ws)) < 256
    → path_to_inode_id fs disk current current_path name (joined (w ∷ ws))
      ≡ follow fs disk 0 (w ∷ ws)
unfolding path_to_inode_id AreNames
path_to_inode_id-follow fs disk current current_path name [] ws h (p, z, l, a) m =
    absurd (omega (arith, z))
path_to_inode_id-follow fs disk current current_path name (d ∷ w) ws h a m =
    resolve-walk (d ∷ w ++ joined ws) fs disk current current_path name _ (omega (arith, m))
    ∙ walk-follow fs disk (d ∷ w) ws 0 name h a
