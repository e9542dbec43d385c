-- ===== src/Memory/Buddy/Heap.antt =====
-- The heap of kernel/memory/buddy.c, and the marking of a block.
use gos_v.Common.{
  ℕ, ◌+◌, ◌^◌, ◌<◌, ◌≡◌, refl, ap, sym, ◌∙◌, subst, inl, inr, arith, Bool, Bool-cases, ==→eq, ne→==,
  eq→==, List, ◌∷◌, ◌++◌, length, ◌==◌,
}
use gos_v.Common.Count.{count-ext}
use gos_v.Memory.Buddy.{BuddyBlocks, buddy_blocks, set_block, mark_used}
use gos_v.Memory.Buddy.Chain.{
  Segment, size_of, Cell, Chain, Trail, size-positive, Chain-same, Chain-append, Trail-same,
}
use gos_v.Memory.Buddy.Entries.{free_count}

-- The heap from `base` to `limit`: the blocks of the chain follow each other from the one end to the
-- other, and every entry of the array but the first is in the chain or free.
pub record IsHeap (blocks : BuddyBlocks) (base limit : ℕ) (ss : List Segment) : Type 0 where
  pub chain : Chain blocks limit (blocks 0).next base ss
  pub root : (blocks 0).base_address ≡ base
  pub counted : free_count blocks + length ss ≡ 1023
  pub end : limit < 2 ^ 31

-- A block is marked.
module _ (blocks : BuddyBlocks) (base limit : ℕ) (front : List Segment) (s : Segment)
    (rest : List Segment) (pre a : ℕ) (used : Bool) (path : Trail blocks 0 base front pre a)
    (cell : Cell blocks s (blocks pre).next a)
    (tail : Chain blocks limit (blocks s.index).next (a + size_of s) rest) where
  abbrev marked : BuddyBlocks
  marked = mark_used blocks s.index used

  marked-other : (i : ℕ) → ¬ (i ≡ s.index) → marked i ≡ blocks i
  unfolding mark_used set_block
  marked-other i n = rw (ne→== i s.index n) refl

  marked_self : marked s.index ≡ record (blocks s.index) { is_used = used }
  unfolding mark_used set_block
  marked_self = rw (eq→== s.index s.index refl) refl

  marked-next : (i : ℕ) → (marked i).next ≡ (blocks i).next
  unfolding mark_used set_block
  marked-next i = elim (Bool-cases (i == s.index)) [
    | inl e ↦ rw e (ap (λ k. (blocks k).next) (sym (==→eq i s.index e)))
    | inr e ↦ rw e refl
  ]

  pub marked-base : (i : ℕ) → (marked i).base_address ≡ (blocks i).base_address
  unfolding mark_used set_block
  marked-base i = elim (Bool-cases (i == s.index)) [
    | inl e ↦ rw e (ap (λ k. (blocks k).base_address) (sym (==→eq i s.index e)))
    | inr e ↦ rw e refl
  ]

  pub marked-count : free_count marked ≡ free_count blocks
  unfolding free_count
  marked-count = count-ext _ _ buddy_blocks (λ k l. ap (λ v. v == 0) (marked-next k))

  kept :
      (i : ℕ)
      → 0 < i
      → (blocks i).base_address < a
      → 0 < (blocks i).next
      → ((marked i).base_address ≡ (blocks i).base_address)
        × ((marked i).block_size ≡ (blocks i).block_size)
        × ((marked i).is_used ≡ (blocks i).is_used)
  kept i h b n =
      let z =
        marked-other i
          (λ w. let v = ap (λ k. (blocks k).base_address) w in omega (arith, v, b, cell.base)) in
      (ap (λ v. v.base_address) z, ap (λ v. v.block_size) z, ap (λ v. v.is_used) z)

  pub marked-Chain :
      Chain marked limit (marked 0).next base (front ++ record s { used = used } ∷ rest)
  unfolding Chain
  marked-Chain =
      let z = size-positive s in
      Chain-append marked limit 0 base pre a front (record s { used = used } ∷ rest)
        (Trail-same blocks marked 0 base pre a front kept (λ i x o n. marked-next i) (inl refl)
          (omega (arith, cell.pointer, cell.positive)) path)
        (
          record {
            pointer = marked-next pre ∙ cell.pointer;
            positive = cell.positive;
            below = cell.below;
            base = marked-base s.index ∙ cell.base;
            size = ap (λ v. v.block_size) marked_self ∙ cell.size;
            used = ap (λ v. v.is_used) marked_self;
          },
          subst (λ q. Chain marked limit q (a + size_of s) rest) (sym (marked-next s.index))
              (Chain-same blocks marked limit (blocks s.index).next (a + size_of s) rest
                (λ i h l n. marked-other i (λ w.
                  let v = ap (λ k. (blocks k).base_address) w in omega (arith, v, l, z, cell.base)))
                tail),
        )
