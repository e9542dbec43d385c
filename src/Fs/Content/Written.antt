-- ===== src/Fs/Content/Written.antt =====
-- What a file that kernel/fs/fs.c has written prints.
use gos_v.Common.{
  ℕ, ◌+◌, ◌*◌, ◌/◌, ◌%◌, ◌^◌, ◌<◌, ◌≤◌, ◌≡◌, refl, ap, sym, ◌∙◌, subst, inl, inr, arith, true,
  false, Bool-cases, eq→==, List, length, none, some, Outcome, ok, panic, hang, ◌>>=◌, ◌==◌, ltb,
  if◌then◌else◌,
}
use gos_v.Utils.{string_length}
use gos_v.Fs.BitMap.{Blocks, Gfs, in_use, allocate_one_data_block_id}
use gos_v.Fs.BitMap.Laws.{Allocated, allocate_bit-Allocated}
use gos_v.Fs.Inode.{
  DiskInode, ft_file, inode_direct_blocks, block_count, free_blocks, read_disk_inode,
  write_disk_inode, clear_file_content_by_inode_id,
}
use gos_v.Fs.Inode.Laws.{IsInode, SameInode, read-write_same, write-elsewhere}
use gos_v.Fs.Directory.{write_block, with_block, place_for_entry}
use gos_v.Fs.Directory.Created.{IsLaidOut, data-inode_block}
use gos_v.Fs.Content.{
  Write, returns, outside, with_content, begun, write_content, append_content, write_file_content,
  prints, print_file_content,
}
use gos_v.Fs.Content.Printed.{
  lines, IsContent, string_length-IsContent, with_content-chars, with_content-end, printed_block,
}

-- The disk after a text was written to the first block of a file.
module _ (fs : Gfs) (disk : Blocks) (id block n : ℕ) (inode : DiskInode) (content : List ℕ)
    (buffer : ℕ → ℕ) (laid : IsLaidOut fs) (h : id < fs.inode_bit_map.blocks * 4096)
    (b : fs.data_area_start_block_id ≤ block) (w : IsInode inode) (t : inode.file_type ≡ ft_file)
    (at : inode.direct_block 0 ≡ block) (p : IsContent content) (l : length content < 512)
    (m : lines content < n) where
  abbrev grown : DiskInode
  grown = record inode { size = (1 + string_length content) % 2 ^ 32 }

  abbrev after : Blocks
  after = write_disk_inode fs (write_block disk block (with_content buffer 0 content)) id grown

  grown-IsInode : IsInode grown
  grown-IsInode = record {
    file_type = w.file_type;
    size = omega arith;
    ref_count = w.ref_count;
    direct_block = w.direct_block;
    indirect1 = w.indirect1;
    indirect2 = w.indirect2;
  }

  read_after : SameInode (read_disk_inode fs after id) grown
  read_after = read-write_same fs _ id grown grown-IsInode

  block_after :
      (i : ℕ)
      → after ((read_disk_inode fs after id).direct_block 0) i ≡ with_content buffer 0 content i
  unfolding write_block
  block_after i =
      ap (λ v. after v i) (read_after.direct_block 0 (omega arith) ∙ at)
      ∙ write-elsewhere fs _ id grown block i (data-inode_block fs id block laid h b)
      ∙ rw (eq→== block block refl) refl

  written-prints : print_file_content fs after id n ≡ prints (content, some true)
  written-prints =
      let k = string_length-IsContent content p in
      printed_block fs after id n content p l m (read_after.file_type ∙ t)
        (read_after.size ∙ omega (arith, k, l))
        (λ i x. block_after (0 + i) ∙ with_content-chars buffer content i p x)
        (block_after (0 + length content) ∙ with_content-end buffer content p)

-- What `WriteFileContent` gives that empties the file first.
unfoldable pub Stored : Gfs → Blocks → ℕ → ℕ → List ℕ → Outcome Write → Type 0
Stored fs disk id n content (ok (returns b disk')) =
    (b ≡ true) × (print_file_content fs disk' id n ≡ prints (content, some true))
Stored fs disk id n content (ok outside) = ⊥
Stored fs disk id n content panic =
    (disk' : Blocks) × (clear_file_content_by_inode_id fs disk id ≡ ok (none, disk'))
    × ((k : ℕ) → k < fs.data_bit_map.blocks * 4096 → in_use disk' fs.data_bit_map k ≡ true)
Stored fs disk id n content hang = ⊥

-- The writing to an inode in memory, once a block was looked for.
write_on : Gfs → ℕ → List ℕ → Outcome (DiskInode × Blocks) → Outcome Write
write_on fs id content r = r >>= (λ (inode, disk). ok (
    write_content fs disk id inode (inode.direct_block (inode.size / 512))
      (begun inode.size (disk (inode.direct_block (inode.size / 512))))
      (if inode.size == 0 then 1 else inode.size) content))

module _ (fs : Gfs) (disk disk1 : Blocks) (id n : ℕ) (content : List ℕ) (laid : IsLaidOut fs)
    (h : id < fs.inode_bit_map.blocks * 4096) (p : IsContent content) (l : length content < 512)
    (m : lines content < n) where
  write_on-Stored :
      (r : DiskInode) (x : Outcome (ℕ × Blocks))
      → clear_file_content_by_inode_id fs disk id ≡ ok (none, disk1)
      → IsInode r
      → r.file_type ≡ ft_file
      → Allocated disk1 fs.data_bit_map x
      → Stored fs disk id n content (
          write_on fs id content (
            with_block
              (record r { size = 0 })
              (x >>= (λ (k, disk2). ok ((k + fs.data_area_start_block_id) % 2 ^ 32, disk2)))))
  unfolding Stored Allocated write_on with_block write_content
  write_on-Stored r (ok (k, disk2)) c w t (a, a1, a2, a3) =
      let e = string_length-IsContent content p in
      let block = (k + fs.data_area_start_block_id) % 2 ^ 32 in
      let z : ltb (0 + string_length content) 512 ≡ true = ground (arith, e, l) in
      rw z (
        refl,
        written-prints fs disk2 id block n
            (record r { direct_block = λ i. if i == 0 then block else r.direct_block i }) content
            (begun 0 (disk2 block)) laid h (omega (arith, a, laid.data_area))
            (record {
              file_type = w.file_type;
              size = w.size;
              ref_count = w.ref_count;
              direct_block = λ i y. elim (Bool-cases (i == 0)) [
                | inl q ↦ rw q (omega arith)
                | inr q ↦ rw q (w.direct_block i y)
              ];
              indirect1 = w.indirect1;
              indirect2 = w.indirect2;
            })
            t refl p l m,
      )
  write_on-Stored r panic c w t a = (disk1, c, a)
  write_on-Stored r hang c w t a = absurd a

  append-Stored :
      clear_file_content_by_inode_id fs disk id ≡ ok (none, disk1)
      → IsInode (read_disk_inode fs disk1 id)
      → (read_disk_inode fs disk1 id).file_type ≡ ft_file
      → (read_disk_inode fs disk1 id).size ≡ 0
      → Stored fs disk id n content (append_content fs disk1 id content)
  unfolding append_content place_for_entry allocate_one_data_block_id write_on
  append-Stored c w t s =
      let r = read_disk_inode fs disk1 id in
      subst
        (λ z.
          Stored fs disk id n content
            (write_on fs id content (place_for_entry fs disk1 (record r { size = z }))))
        (sym s) (write_on-Stored r _ c w t (allocate_bit-Allocated disk1 fs.data_bit_map))

-- The inode of a file that was emptied.
module _ (fs : Gfs) (disk : Blocks) (id : ℕ) (w : IsInode (read_disk_inode fs disk id))
    (t : (read_disk_inode fs disk id).file_type ≡ ft_file)
    (b : block_count (read_disk_inode fs disk id).size ≤ inode_direct_blocks) where
  abbrev file : DiskInode
  file = read_disk_inode fs disk id

  abbrev emptied : DiskInode
  emptied = record file {
    direct_block = λ i. if ltb i (block_count file.size) then 0 else file.direct_block i;
    size = 0;
  }

  abbrev cleared : Blocks
  cleared = write_disk_inode fs (free_blocks fs file (block_count file.size) 0 disk) id emptied

  clear-cleared : clear_file_content_by_inode_id fs disk id ≡ ok (none, cleared)
  unfolding clear_file_content_by_inode_id
  clear-cleared =
      let z : ltb inode_direct_blocks (block_count file.size) ≡ false = ground (arith, b) in
      rw (eq→== file.file_type ft_file t, z) refl

  emptied-IsInode : IsInode emptied
  emptied-IsInode = record {
    file_type = w.file_type;
    size = omega arith;
    ref_count = w.ref_count;
    direct_block = λ i y. elim (Bool-cases (ltb i (block_count file.size))) [
      | inl q ↦ rw q (omega arith)
      | inr q ↦ rw q (w.direct_block i y)
    ];
    indirect1 = w.indirect1;
    indirect2 = w.indirect2;
  }

  read_cleared : SameInode (read_disk_inode fs cleared id) emptied
  read_cleared = read-write_same fs _ id emptied emptied-IsInode

  cleared-IsInode : IsInode (read_disk_inode fs cleared id)
  cleared-IsInode =
      let s = read_cleared in
      let e = emptied-IsInode in
      record {
        file_type = omega (arith, s.file_type, e.file_type);
        size = omega (arith, s.size);
        ref_count = omega (arith, s.ref_count, e.ref_count);
        direct_block = λ i y.
            let q = s.direct_block i y in
            let r = e.direct_block i y in subst (λ v. v < 2 ^ 32) (sym q) r;
        indirect1 = omega (arith, s.indirect1, e.indirect1);
        indirect2 = omega (arith, s.indirect2, e.indirect2);
      }

-- In a file system whose areas follow each other, `WriteFileContent` that empties a file of at most 27
-- blocks first, of a text of at most 511 characters, none of them NUL or EOF, returns true,
-- and `PrintFileContent` of more lines than the text has line feeds then prints the text; it panics
-- only when every data block is in use after the file was emptied.
pub write_file_content-Stored :
    (fs : Gfs) (disk : Blocks) (id n : ℕ) (content : List ℕ)
    → IsLaidOut fs
    → id < fs.inode_bit_map.blocks * 4096
    → IsInode (read_disk_inode fs disk id)
    → (read_disk_inode fs disk id).file_type ≡ ft_file
    → block_count (read_disk_inode fs disk id).size ≤ inode_direct_blocks
    → IsContent content
    → length content < 512
    → lines content < n
    → Stored fs disk id n content (write_file_content fs disk id content true)
unfolding write_file_content
write_file_content-Stored fs disk id n content laid h w t b p l m =
    let c = clear-cleared fs disk id w t b in
    let s = read_cleared fs disk id w t b in
    rw (eq→== (read_disk_inode fs disk id).file_type ft_file t, c)
      (append-Stored fs disk (cleared fs disk id w t b) id n content laid h p l m c
        (cleared-IsInode fs disk id w t b) (s.file_type ∙ t) s.size)
