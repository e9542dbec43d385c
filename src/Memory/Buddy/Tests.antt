-- ===== src/Memory/Buddy/Tests.antt =====
-- Blocks of the heap that are given out and given back.
use gos_v.Common.{
  ℕ, ◌+◌, ◌≡◌, refl, arith, true, false, List, [], ◌∷◌, Outcome, ok, panic, hang, ◌>>=◌, ◌==◌,
  if◌then◌else◌,
}
use gos_v.Common.Search.{first_from}
use gos_v.Common.Count.{count}
use gos_v.Utils.{Bytes}
use gos_v.Memory.Buddy.{
  BuddyBlocks, set_block, set_next, empty_block, get_free_block_index, free_block, find_block,
  link_halves, split_block, split_loop, mark_used, malloc, find_address, merges, merge, merge_step,
  merge_loop, merge_buddy, free, global_buddy_allocator_init,
}
use gos_v.Memory.Buddy.Chain.{Segment, Chain}
use gos_v.Memory.Buddy.Entries.{free_count}
use gos_v.Memory.Buddy.Heap.{IsHeap}
use gos_v.Memory.Buddy.Malloc.{Given, malloc-Given}
use gos_v.Memory.Buddy.Merging.{Merged}
use gos_v.Memory.Buddy.Free.{free-Merged}
use gos_v.Memory.Buddy.Reachable.{
  heap_size, started, given, whole_heap, started-IsHeap, Reachable-IsHeap,
}

abbrev empty : BuddyBlocks
empty i = record { base_address = 0; block_size = 0; is_used = false; next = 0 }

abbrev heap : BuddyBlocks
heap = global_buddy_allocator_init 0x200000 empty

abbrev memory : Bytes
memory a = 7

-- The addresses of two blocks of 100 bytes, and the size of the second.
abbrev two_addresses : Outcome (ℕ × ℕ)
two_addresses = do
  (x, blocks1, memory1) ← malloc heap memory 100
  (y, blocks2, memory2) ← malloc blocks1 memory1 100
  ok (x, y)

two_blocks : two_addresses ≡ ok (0x200000, 0x200080)
unfolding global_buddy_allocator_init malloc find_block split_loop split_block get_free_block_index
    empty_block first_from link_halves set_block set_next free_block mark_used
two_blocks = refl

-- What is left of the chain when both are given back: one block of the whole heap.
abbrev given_back : Outcome (ℕ × ℕ)
given_back = do
  (x, blocks1, memory1) ← malloc heap memory 100
  (y, blocks2, memory2) ← malloc blocks1 memory1 100
  blocks3 ← free blocks2 x
  blocks4 ← free blocks3 y
  ok ((blocks4 (blocks4 0).next).block_size, (blocks4 (blocks4 0).next).next)

whole_again : given_back ≡ ok (0x10000, 4294967295)
unfolding two_blocks free find_address merge_buddy merge_loop merge_step merges merge
whole_again = refl

-- Blocks that are not the halves of one block are joined as well: of three blocks of 128 bytes the
-- second and the third, then the first, are given back, and the heap is in blocks of 128, 256 and 128
-- bytes and larger ones from then on.
abbrev not_whole : Outcome (ℕ × ℕ)
not_whole = do
  (x, blocks1, memory1) ← malloc heap memory 100
  (y, blocks2, memory2) ← malloc blocks1 memory1 100
  (z, blocks3, memory3) ← malloc blocks2 memory2 100
  blocks4 ← free blocks3 y
  blocks5 ← free blocks4 z
  blocks6 ← free blocks5 x
  ok ((blocks6 (blocks6 0).next).block_size, (blocks6 (blocks6 (blocks6 0).next).next).block_size)

not_whole_again : not_whole ≡ ok (128, 256)
unfolding whole_again
not_whole_again = refl

start-IsHeap : IsHeap heap 0x200000 (0x200000 + heap_size) (whole_heap ∷ [])
start-IsHeap = started-IsHeap 0x200000 empty (omega arith) (λ i l. refl)

malloc-Given_example :
    Given 0x200000 (0x200000 + heap_size) 100 (whole_heap ∷ []) memory (malloc heap memory 100)
malloc-Given_example =
    malloc-Given heap memory 0x200000 (0x200000 + heap_size) 100 (whole_heap ∷ []) start-IsHeap
      (omega arith)

-- A heap of two halves, of which the second is in use.
abbrev halves : BuddyBlocks
halves i =
    if i == 0
    then record { base_address = 0x200000; block_size = 0x10000; is_used = true; next = 1 }
    else if i == 1
    then record { base_address = 0x200000; block_size = 0x8000; is_used = false; next = 2 }
    else if i == 2
    then record { base_address = 0x208000; block_size = 0x8000; is_used = true; next = 4294967295 }
    else empty i

abbrev lower : Segment
lower = record { index = 1; order = 15; used = false }

abbrev upper : Segment
upper = record { index = 2; order = 15; used = true }

halves-IsHeap : IsHeap halves 0x200000 0x210000 (lower ∷ upper ∷ [])
unfolding Chain free_count count
halves-IsHeap = record {
  chain = (
    record {
      pointer = refl;
      positive = omega arith;
      below = omega arith;
      base = refl;
      size = refl;
      used = refl;
    },
    (
      record {
        pointer = refl;
        positive = omega arith;
        below = omega arith;
        base = refl;
        size = refl;
        used = refl;
      },
      (refl, refl),
    ),
  );
  root = refl;
  counted = refl;
  end = omega arith;
}

free-Merged_example :
    Merged 0x200000 0x210000 ((15, false) ∷ (15, false) ∷ []) (free halves 0x208000)
free-Merged_example = free-Merged halves 0x200000 0x210000 (lower ∷ []) upper [] halves-IsHeap

abbrev blocks_of : Outcome (ℕ × BuddyBlocks × Bytes) → BuddyBlocks
blocks_of (ok (address, blocks, memory')) = blocks
blocks_of panic = empty
blocks_of hang = empty

abbrev memory_of : Outcome (ℕ × BuddyBlocks × Bytes) → Bytes
memory_of (ok (address, blocks, memory')) = memory'
memory_of panic = memory
memory_of hang = memory

given_100 :
    malloc heap memory 100
    ≡ ok (0x200000, blocks_of (malloc heap memory 100), memory_of (malloc heap memory 100))
unfolding two_blocks
given_100 = refl

Reachable-IsHeap_example :
    (ss : List Segment) × IsHeap
      (blocks_of (malloc heap memory 100))
      0x200000
      (0x200000 + heap_size)
      ss
Reachable-IsHeap_example =
    Reachable-IsHeap 0x200000 (blocks_of (malloc heap memory 100)) (omega arith) (
      given heap (blocks_of (malloc heap memory 100)) memory (memory_of (malloc heap memory 100))
        100 0x200000 (started empty (λ i l. refl)) (omega arith) given_100)
