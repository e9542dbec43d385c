-- ===== src/Memory/Buddy/Entries.antt =====
-- The free entries of the array of blocks of kernel/memory/buddy.c.
use gos_v.Common.{
  ℕ, suc, ◌<◌, ◌≡◌, refl, arith, false, ==→eq, eq→==, Option, none, some, Outcome, ok, panic, hang,
  ◌==◌,
}
use gos_v.Common.Search.{Found, first_from-Found}
use gos_v.Common.Count.{count, count-none, count-drop}
use gos_v.Memory.Buddy.{
  BuddyBlock, BuddyBlocks, buddy_blocks, no_block, set_block, empty_block, get_free_block_index,
}

-- How many entries are in no chain.
unfoldable pub free_count : BuddyBlocks → ℕ
free_count blocks = count (λ i. (blocks i).next == 0) buddy_blocks

abbrev pub emptied : BuddyBlock
emptied = record { base_address = 0; block_size = 0; is_used = false; next = no_block }

-- What the search for a free entry gives.
unfoldable pub Got : BuddyBlocks → Outcome (ℕ × BuddyBlocks) → Type 0
Got blocks (ok (i, blocks')) =
    (i < buddy_blocks)
    × ((blocks i).next ≡ 0)
    × (blocks' ≡ set_block blocks i emptied)
    × (free_count blocks ≡ suc (free_count blocks'))
Got blocks panic = free_count blocks ≡ 0
Got blocks hang = ⊥

set-count_drop :
    (blocks : BuddyBlocks) (i : ℕ) (b : BuddyBlock)
    → i < buddy_blocks
    → (blocks i).next ≡ 0
    → 0 < b.next
    → free_count blocks ≡ suc (free_count (set_block blocks i b))
unfolding free_count set_block
set-count_drop blocks i b l e n =
    count-drop (λ k. (blocks k).next == 0) _ buddy_blocks i l (eq→== (blocks i).next 0 e)
      (λ k. ground (arith, n))

none_free :
    (blocks : BuddyBlocks)
    → ((k : ℕ) → k < buddy_blocks → ((blocks k).next == 0) ≡ false)
    → free_count blocks ≡ 0
unfolding free_count
none_free blocks h = count-none _ buddy_blocks h

empty-Got :
    (blocks : BuddyBlocks) (r : Option ℕ)
    → Found (λ i. (blocks i).next == 0) buddy_blocks 0 r
    → Got blocks (empty_block blocks r)
unfolding Got empty_block Found
empty-Got blocks none f = none_free blocks (λ k l. f k (omega arith) (omega (arith, l)))
empty-Got blocks (some i) (a, b, c, d) =
    let e = ==→eq (blocks i).next 0 c in
    (omega (arith, b), e, refl, set-count_drop blocks i emptied (omega (arith, b)) e (omega arith))

pub get_free-Got : (blocks : BuddyBlocks) → Got blocks (get_free_block_index blocks)
unfolding get_free_block_index
get_free-Got blocks = empty-Got blocks _ (first_from-Found _ buddy_blocks 0)
