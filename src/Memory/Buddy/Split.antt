-- ===== src/Memory/Buddy/Split.antt =====
-- The splitting of a block by kernel/memory/buddy.c.
use gos_v.Common.{ℕ, ◌<◌, ◌≤◌, ◌≡◌, ap, sym, ◌∙◌, subst, arith, Outcome, ok, panic, hang, ◌>>=◌}
use gos_v.Memory.Buddy.{
  BuddyBlocks, buddy_blocks, set_block, get_free_block_index, link_halves, split_block,
}
use gos_v.Memory.Buddy.Entries.{free_count, emptied, Got, get_free-Got}
use gos_v.Memory.Buddy.Linked.{
  Split, taken_two, differ, second_free, linked1, linked2, linked_pre, linked_others, linked_count,
}

-- What splitting gives.
unfoldable pub Halved : BuddyBlocks → ℕ → ℕ → Outcome (ℕ × BuddyBlocks) → Type 0
Halved blocks pre p (ok (block1, blocks')) = Split blocks blocks' pre p block1
Halved blocks pre p panic = free_count blocks ≤ 1
Halved blocks pre p hang = ⊥

positive_of : (i : ℕ) → ¬ (i ≡ 0) → 0 < i
positive_of i h = ground (arith, h)

linked-Split :
    (blocks : BuddyBlocks) (pre p block1 block2 : ℕ)
    → 0 < (blocks pre).next
    → 0 < (blocks p).next
    → 0 < (blocks 0).next
    → p < buddy_blocks
    → ¬ (pre ≡ p)
    → block1 < buddy_blocks
    → (blocks block1).next ≡ 0
    → block2 < buddy_blocks
    → ¬ (block2 ≡ block1)
    → (blocks block2).next ≡ 0
    → Split blocks (link_halves (taken_two blocks block1 block2) pre p block1 block2) pre p block1
linked-Split blocks pre p block1 block2 n m z l d b1 f1 b2 e f2 =
    let z1 = positive_of block1 (differ blocks block1 0 f1 z) in
    let z2 = positive_of block2 (differ blocks block2 0 f2 z) in
    record {
      block2 = block2;
      positive1 = z1;
      below1 = b1;
      free1 = f1;
      positive2 = z2;
      below2 = b2;
      free2 = f2;
      at1 = linked1 blocks pre p block1 block2 n m d f1 f2 e;
      at2 = linked2 blocks pre p block1 block2 n m d f1 f2 e;
      at_pre = linked_pre blocks pre p block1 block2 n m d f1 f2 e;
      others = linked_others blocks pre p block1 block2 n m d f1 f2 e;
      counted = linked_count blocks pre p block1 block2 n m d f1 f2 e b1 b2 l z1 z2;
    }

second_Halved :
    (blocks blocks1 : BuddyBlocks) (pre p block1 : ℕ) (r : Outcome (ℕ × BuddyBlocks))
    → 0 < (blocks pre).next
    → 0 < (blocks p).next
    → 0 < (blocks 0).next
    → p < buddy_blocks
    → ¬ (pre ≡ p)
    → Got blocks (ok (block1, blocks1))
    → Got blocks1 r
    → Halved blocks pre p
        (r >>= (λ (block2, blocks2). ok (block1, link_halves blocks2 pre p block1 block2)))
unfolding Halved Got
second_Halved blocks blocks1 pre p block1 (ok (block2, blocks2)) n m z l d (b1, f1, e1, c1)
      (b2, f2, e2, c2) =
    let f = subst (λ b. (b block2).next ≡ 0) e1 f2 in
    let (e, g) = second_free blocks block1 block2 f in
    let q = e2 ∙ ap (λ b. set_block b block2 emptied) e1 in
    subst (λ b. Split blocks (link_halves b pre p block1 block2) pre p block1) (sym q)
      (linked-Split blocks pre p block1 block2 n m z l d b1 f1 b2 e g)
second_Halved blocks blocks1 pre p block1 panic n m z l d (b1, f1, e1, c1) g = omega (arith, c1, g)
second_Halved blocks blocks1 pre p block1 hang n m z l d f g = g

first_Halved :
    (blocks : BuddyBlocks) (pre p : ℕ) (r : Outcome (ℕ × BuddyBlocks))
    → 0 < (blocks pre).next
    → 0 < (blocks p).next
    → 0 < (blocks 0).next
    → p < buddy_blocks
    → ¬ (pre ≡ p)
    → Got blocks r
    → Halved blocks pre p (
        r >>= (λ (block1, blocks1).
          get_free_block_index blocks1
          >>= (λ (block2, blocks2). ok (block1, link_halves blocks2 pre p block1 block2))))
unfolding Halved Got
first_Halved blocks pre p (ok (block1, blocks1)) n m z l d g =
    second_Halved blocks blocks1 pre p block1 _ n m z l d g (get_free-Got blocks1)
first_Halved blocks pre p panic n m z l d g = omega (arith, g)
first_Halved blocks pre p hang n m z l d g = g

pub split_block-Split :
    (blocks : BuddyBlocks) (pre p : ℕ)
    → 0 < (blocks pre).next
    → 0 < (blocks p).next
    → 0 < (blocks 0).next
    → p < buddy_blocks
    → ¬ (pre ≡ p)
    → Halved blocks pre p (split_block blocks pre p)
unfolding split_block
split_block-Split blocks pre p n m z l d =
    first_Halved blocks pre p _ n m z l d (get_free-Got blocks)
