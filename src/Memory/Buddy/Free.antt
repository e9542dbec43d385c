-- ===== src/Memory/Buddy/Free.antt =====
-- `Free` of kernel/memory/buddy.c against what the heap promises.
use gos_v.Common.{
  ℕ, zero, suc, ◌+◌, ◌*◌, ◌^◌, ◌<◌, ◌≤◌, ◌≡◌, refl, ap, ◌∙◌, arith, false, ne→==, eq→==, List, [],
  ◌∷◌, ◌++◌, length, length-append, ok,
}
use gos_v.Memory.Buddy.{
  BuddyBlocks, buddy_blocks, no_block, mark_used, find_address, merge_buddy, free,
}
use gos_v.Memory.Buddy.Chain.{Segment, size_of, Cell, Chain, Trail, size-positive}
use gos_v.Memory.Buddy.Orders.{Blocks, view}
use gos_v.Memory.Buddy.Heap.{IsHeap, marked-base, marked-count, marked-Chain}
use gos_v.Memory.Buddy.Merging.{Merged, from_first, merge_loop-Merged}

-- The address behind blocks from an address on.
abbrev pub behind_all : ℕ → Blocks → ℕ
behind_all address [] = address
behind_all address ((e, used) ∷ rest) = behind_all (address + 2 ^ e) rest

-- A block of the chain, at its place.
pub record Placed (blocks : BuddyBlocks) (limit pre0 address : ℕ) (front : List Segment)
    (s : Segment) (rest : List Segment) : Type 0 where
  pub pre : ℕ
  pub path : Trail blocks pre0 address front pre (behind_all address (view front))
  pub cell : Cell blocks s (blocks pre).next (behind_all address (view front))
  pub tail :
      Chain blocks limit (blocks s.index).next (behind_all address (view front) + size_of s) rest

pub Chain-Placed :
    (blocks : BuddyBlocks) (limit pre0 address : ℕ) (front : List Segment) (s : Segment)
    (rest : List Segment)
    → Chain blocks limit (blocks pre0).next address (front ++ s ∷ rest)
    → Placed blocks limit pre0 address front s rest
unfolding Chain Trail
Chain-Placed blocks limit pre0 address [] s rest (c, t) = record {
  pre = pre0;
  path = (refl, refl);
  cell = c;
  tail = t;
}
Chain-Placed blocks limit pre0 address (x ∷ front) s rest (c, t) =
    let p = Chain-Placed blocks limit x.index (address + size_of x) front s rest t in
    record { pre = p.pre; path = (c, p.path); cell = p.cell; tail = p.tail }

behind_all-le : (address : ℕ) (v : Blocks) → address ≤ behind_all address v
behind_all-le address [] = omega arith
behind_all-le address ((e, used) ∷ rest) =
    let l = behind_all-le (address + 2 ^ e) rest in omega (arith, l)

-- The block at an address is found.
find_address_lem :
    (blocks : BuddyBlocks) (limit pre0 address rounds : ℕ) (front : List Segment) (s : Segment)
    (rest : List Segment)
    → length front < rounds
    → Chain blocks limit (blocks pre0).next address (front ++ s ∷ rest)
    → find_address rounds blocks (behind_all address (view front)) (blocks pre0).next ≡ ok s.index
unfolding find_address Chain
find_address_lem blocks limit pre0 address zero front s rest l c = absurd (omega (arith, l))
find_address_lem blocks limit pre0 address (suc rounds) [] s rest l (c, t) =
    let n = ne→== (blocks pre0).next no_block (λ q. omega (arith, q, c.pointer, c.below)) in
    let b =
      eq→== (blocks (blocks pre0).next).base_address address
        (ap (λ i. (blocks i).base_address) c.pointer ∙ c.base) in
    rw (n, b) (ap ok c.pointer)
find_address_lem blocks limit pre0 address (suc rounds) (x ∷ front) s rest l (c, t) =
    let z = size-positive x in
    let a = behind_all (address + size_of x) (view front) in
    let g = behind_all-le (address + size_of x) (view front) in
    let n = ne→== (blocks pre0).next no_block (λ q. omega (arith, q, c.pointer, c.below)) in
    let b = ne→== (blocks (blocks pre0).next).base_address a (λ q.
      let w = ap (λ i. (blocks i).base_address) c.pointer ∙ c.base in omega (arith, q, w, g, z)) in
    rw (n, b)
      (ap (λ i. find_address rounds blocks a (blocks i).next) c.pointer
        ∙ find_address_lem blocks limit x.index (address + size_of x) rounds front s rest
            (omega (arith, l)) t)

-- The blocks once one of them is free again.
abbrev pub released : List Segment → Segment → List Segment → List Segment
released front s rest = front ++ record s { used = false } ∷ rest

released-IsHeap :
    (blocks : BuddyBlocks) (base limit : ℕ) (front : List Segment) (s : Segment)
    (rest : List Segment)
    → IsHeap blocks base limit (front ++ s ∷ rest)
    → IsHeap (mark_used blocks s.index false) base limit (released front s rest)
released-IsHeap blocks base limit front s rest h =
    let p = Chain-Placed blocks limit 0 base front s rest h.chain in
    let a = behind_all base (view front) in
    let c = marked-count blocks base limit front s rest p.pre a false p.path p.cell p.tail in
    let k = length-append front (s ∷ rest) in
    let m = length-append front (record s { used = false } ∷ rest) in
    record {
      chain = marked-Chain blocks base limit front s rest p.pre a false p.path p.cell p.tail;
      root =
          marked-base blocks base limit front s rest p.pre a false p.path p.cell p.tail 0 ∙ h.root;
      counted = omega (arith, c, k, m, h.counted);
      end = h.end;
    }

-- `Free` of the address of a block of the heap makes it free and then joins free neighbours, until no
-- block is to be joined with the one behind it; the blocks fill the heap as before. It ends and does
-- not panic.
pub free-Merged :
    (blocks : BuddyBlocks) (base limit : ℕ) (front : List Segment) (s : Segment)
    (rest : List Segment)
    → IsHeap blocks base limit (front ++ s ∷ rest)
    → Merged base limit (view (released front s rest)) (free blocks (behind_all base (view front)))
unfolding free merge_buddy
free-Merged blocks base limit front s rest h =
    let k = length-append front (s ∷ rest) in
    let m = length-append front (record s { used = false } ∷ rest) in
    rw
      (find_address_lem blocks limit 0 base (suc buddy_blocks) front s rest
        (omega (arith, k, h.counted)) h.chain)
      (from_first base limit (suc buddy_blocks * suc buddy_blocks) (mark_used blocks s.index false)
        (released front s rest) (merge_loop-Merged base limit (suc buddy_blocks * suc buddy_blocks))
        (released-IsHeap blocks base limit front s rest h) (omega (arith, m))
        (omega (arith, m, k, h.counted)))
