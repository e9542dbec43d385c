-- ===== src/Memory/Buddy.antt =====
-- kernel/memory/buddy.c: the heap, a chain of blocks in an array.
-- An index of a block is an `i32`; the blocks are a function of it, so that what stands before the
-- array is what the index -1 holds.
pub mod Chain
pub mod Entries
pub mod Linked
pub mod Split
pub mod Orders
pub mod Find
pub mod Ready
pub mod Halving
pub mod Heap
pub mod Malloc
pub mod Joins
pub mod Merged
pub mod Merging
pub mod Free
pub mod Reachable
mod Tests
use gos_v.Common.{
  ℕ, zero, suc, ◌+◌, ◌-◌, ◌*◌, ◌/◌, ◌%◌, ◌^◌, Bool, true, false, not, ◌&&◌, Option, none, some,
  Outcome, ok, panic, hang, ◌>>=◌, ◌==◌, leb, ltb, if◌then◌else◌,
}
use gos_v.Common.Search.{first_from}
use gos_v.Utils.{Bytes, memory_set}

abbrev pub buddy_blocks : ℕ
buddy_blocks = 1024

abbrev pub buddy_pages : ℕ
buddy_pages = 16

-- -1
abbrev pub no_block : ℕ
no_block = 2 ^ 32 - 1

pub record BuddyBlock : Type 0 where
  pub base_address : ℕ
  pub block_size : ℕ
  pub is_used : Bool
  pub next : ℕ

-- `globalBuddyAllocator.Blocks`
abbrev pub BuddyBlocks : Type 0
BuddyBlocks = ℕ → BuddyBlock

unfoldable pub set_block : BuddyBlocks → ℕ → BuddyBlock → BuddyBlocks
set_block blocks index block i = if i == index then block else blocks i

unfoldable pub set_next : BuddyBlocks → ℕ → ℕ → BuddyBlocks
set_next blocks index next = set_block blocks index (record (blocks index) { next = next })

-- The first entry that is in no chain is emptied.
unfoldable pub empty_block : BuddyBlocks → Option ℕ → Outcome (ℕ × BuddyBlocks)
empty_block blocks none = panic
empty_block blocks (some i) = ok (
  i,
  set_block blocks i
      (record { base_address = 0; block_size = 0; is_used = false; next = no_block }),
)

unfoldable pub get_free_block_index : BuddyBlocks → Outcome (ℕ × BuddyBlocks)
get_free_block_index blocks =
    empty_block blocks (first_from (λ i. (blocks i).next == 0) buddy_blocks 0)

unfoldable pub free_block : BuddyBlocks → ℕ → BuddyBlocks
free_block blocks index = set_next blocks index 0

-- The first loop of `Malloc`: the block and the one before it, or -1.
unfoldable pub find_block : ℕ → BuddyBlocks → ℕ → ℕ → ℕ → Outcome (ℕ × ℕ)
find_block zero blocks size pre p = hang
find_block (suc rounds) blocks size pre p =
    let rest = find_block rounds blocks size p (blocks p).next in
    if p == no_block
    then ok (pre, p)
    else (if not (blocks p).is_used && leb size (blocks p).block_size then ok (pre, p) else rest)

-- The halves of a block take its place in the chain.
unfoldable pub link_halves : BuddyBlocks → ℕ → ℕ → ℕ → ℕ → BuddyBlocks
link_halves blocks pre p block1 block2 =
    let half = (blocks p).block_size / 2 in
    let blocks1 = set_block blocks block1 (record (blocks block1) {
      base_address = (blocks p).base_address;
      block_size = half;
      next = block2;
    }) in
    let blocks2 = set_block blocks1 block2 (record (blocks1 block2) {
      base_address = ((blocks1 p).base_address + half) % 2 ^ 32;
      block_size = half;
      next = (blocks1 p).next;
    }) in
    free_block (set_next blocks2 pre block1) p

unfoldable pub split_block : BuddyBlocks → ℕ → ℕ → Outcome (ℕ × BuddyBlocks)
split_block blocks pre p = do
  (block1, blocks1) ← get_free_block_index blocks
  (block2, blocks2) ← get_free_block_index blocks1
  ok (block1, link_halves blocks2 pre p block1 block2)

-- The second loop. Each round takes an entry of the array, so that 1024 rounds are enough.
unfoldable pub split_loop : ℕ → BuddyBlocks → ℕ → ℕ → ℕ → Outcome (ℕ × BuddyBlocks)
split_loop zero blocks size pre p = hang
split_loop (suc rounds) blocks size pre p =
    let rest = split_block blocks pre p >>= (λ r. split_loop rounds r.1 size pre r.0) in
    if leb (2 * size % 2 ^ 32) (blocks p).block_size then rest else ok (p, blocks)

unfoldable pub mark_used : BuddyBlocks → ℕ → Bool → BuddyBlocks
mark_used blocks p used = set_block blocks p (record (blocks p) { is_used = used })

-- `Malloc`: the address, the blocks and the memory.
unfoldable pub malloc : BuddyBlocks → Bytes → ℕ → Outcome (ℕ × BuddyBlocks × Bytes)
malloc blocks memory size = do
  (pre, p) ← find_block (suc buddy_blocks) blocks size 0 (blocks 0).next
  (q, blocks') ← (if p == no_block then panic else split_loop (suc buddy_blocks) blocks size pre p)
  ok (
    (blocks' q).base_address,
    mark_used blocks' q true,
    memory_set (blocks' q).base_address 0 size memory,
  )

-- The loop of `Free`: the block at the address, or -1.
unfoldable pub find_address : ℕ → BuddyBlocks → ℕ → ℕ → Outcome ℕ
find_address zero blocks address p = hang
find_address (suc rounds) blocks address p =
    let rest = find_address rounds blocks address (blocks p).next in
    if p == no_block then ok p else (if (blocks p).base_address == address then ok p else rest)

-- Whether a block is merged with the one before it.
unfoldable pub merges : BuddyBlocks → ℕ → ℕ → Bool
merges blocks pre p =
    not (blocks p).is_used
    && (not (blocks pre).is_used
        && (((blocks pre).base_address + (2 ^ 32 - (blocks 0).base_address))
                % 2 ^ 32
                % (blocks p).block_size
              == 0
            && (blocks pre).block_size == (blocks p).block_size))

unfoldable pub merge : BuddyBlocks → ℕ → ℕ → BuddyBlocks
merge blocks pre p =
    free_block
      (set_block blocks pre (record (blocks pre) {
        block_size = (blocks pre).block_size * 2 % 2 ^ 32;
        next = (blocks p).next;
      }))
      p

-- One round of `mergeBuddy`: after a merge it begins again at the first block.
unfoldable pub merge_step : BuddyBlocks → ℕ → ℕ → BuddyBlocks × ℕ
merge_step blocks pre p =
    if merges blocks pre p
    then (let blocks' = merge blocks pre p in (blocks', (blocks' 0).next))
    else (blocks, p)

unfoldable pub merge_loop : ℕ → BuddyBlocks → ℕ → ℕ → Outcome BuddyBlocks
merge_loop zero blocks pre p = hang
merge_loop (suc rounds) blocks pre p =
    let (blocks', q) = merge_step blocks pre p in
    let rest = merge_loop rounds blocks' q (blocks' q).next in
    if p == no_block then ok blocks else rest

-- At most 1024 merges, each behind a walk along the chain.
unfoldable pub merge_buddy : BuddyBlocks → Outcome BuddyBlocks
merge_buddy blocks =
    let pre = (blocks 0).next in
    merge_loop (suc buddy_blocks * suc buddy_blocks) blocks pre (blocks pre).next

unfoldable pub free : BuddyBlocks → ℕ → Outcome BuddyBlocks
free blocks address = do
  p ← find_address (suc buddy_blocks) blocks address (blocks 0).next
  merge_buddy (mark_used blocks p false)

-- `globalBuddyAllocatorInit`, given the address of the pages that it has allocated.
unfoldable pub global_buddy_allocator_init : ℕ → BuddyBlocks → BuddyBlocks
global_buddy_allocator_init base_address blocks i =
    if i == 0
    then record {
      base_address = base_address;
      block_size = buddy_pages * 4096;
      is_used = true;
      next = 1;
    }
    else if i == 1
    then record {
      base_address = base_address;
      block_size = buddy_pages * 4096;
      is_used = false;
      next = no_block;
    }
    else if ltb i buddy_pages
    then record { base_address = 0; block_size = 0; is_used = false; next = 0 }
    else blocks i
