-- ===== src/Memory/Buddy/Reachable.antt =====
-- The heap of kernel/memory/buddy.c from its start on.
use gos_v.Common.{
  ℕ, zero, suc, ◌+◌, ◌*◌, ◌^◌, ◌<◌, ◌≤◌, ◌≡◌, refl, ap, sym, ◌∙◌, subst, ◌⊎◌, inl, inr, arith, Bool,
  true, false, Bool-cases, ==→eq, ne→==, eq→==, List, [], ◌∷◌, ◌++◌, length, Outcome, ok, panic,
  hang, ◌==◌, ltb, if◌then◌else◌,
}
use gos_v.Common.Count.{count, count-ext, count-drop}
use gos_v.Utils.{Bytes}
use gos_v.Memory.Buddy.{
  BuddyBlocks, buddy_blocks, buddy_pages, no_block, malloc, find_address, free,
  global_buddy_allocator_init,
}
use gos_v.Memory.Buddy.Chain.{Segment, size_of, Chain}
use gos_v.Memory.Buddy.Orders.{view}
use gos_v.Memory.Buddy.Entries.{free_count}
use gos_v.Memory.Buddy.Heap.{IsHeap}
use gos_v.Memory.Buddy.Malloc.{Given, malloc-Given}
use gos_v.Memory.Buddy.Merging.{Merged}
use gos_v.Memory.Buddy.Free.{behind_all, free-Merged}

-- The size of the heap in bytes.
abbrev pub heap_size : ℕ
heap_size = buddy_pages * 4096

-- The array behind the entries that the start clears is 0, as C starts it.
abbrev pub StartsEmpty : BuddyBlocks → Type 0
StartsEmpty blocks = (i : ℕ) → buddy_pages ≤ i → (blocks i).next ≡ 0

-- The heaps that the start and calls of `Malloc`, of at least one byte, and of `Free`, of the address
-- of a block, lead to.
pub data Reachable (base : ℕ) : BuddyBlocks → Type 0 where
  started :
      (blocks : BuddyBlocks)
      → StartsEmpty blocks
      → Reachable base (global_buddy_allocator_init base blocks)
  given :
      (blocks blocks' : BuddyBlocks) (memory memory' : Bytes) (n address : ℕ)
      → Reachable base blocks
      → 0 < n
      → malloc blocks memory n ≡ ok (address, blocks', memory')
      → Reachable base blocks'
  released :
      (blocks blocks' : BuddyBlocks) (address p : ℕ)
      → Reachable base blocks
      → find_address (suc buddy_blocks) blocks address (blocks 0).next ≡ ok p
      → ¬ (p ≡ no_block)
      → free blocks address ≡ ok blocks'
      → Reachable base blocks'

-- The only block at the start.
abbrev pub whole_heap : Segment
whole_heap = record { index = 1; order = 16; used = false }

all_free : ℕ → Bool
all_free k = true

but_first : ℕ → Bool
but_first k = if k == 0 then false else all_free k

but_two : ℕ → Bool
but_two k = if k == 1 then false else but_first k

start_free :
    (base : ℕ) (blocks : BuddyBlocks)
    → StartsEmpty blocks
    → (k : ℕ) → ((global_buddy_allocator_init base blocks k).next == 0) ≡ but_two k
unfolding global_buddy_allocator_init but_two but_first all_free
start_free base blocks z k = elim (Bool-cases (k == 0)) [
  | inl e ↦ rw (e, ap (λ i. i == 1) (==→eq k 0 e)) refl
  | inr e ↦ elim (Bool-cases (k == 1)) [
    | inl f ↦ rw (e, f) refl
    | inr f ↦ elim (Bool-cases (ltb k buddy_pages)) [
      | inl g ↦ rw (e, f, g) refl
      | inr g ↦ rw (e, f, g) (eq→== _ 0 (z k (ground (arith, g))))
    ]
  ]
]

every_free : count all_free buddy_blocks ≡ 1024
unfolding all_free count
every_free = refl

start_count :
    (base : ℕ) (blocks : BuddyBlocks)
    → StartsEmpty blocks
    → free_count (global_buddy_allocator_init base blocks) ≡ 1022
unfolding free_count but_two but_first all_free
start_count base blocks z =
    let b = count-drop all_free but_first buddy_blocks 0 (omega arith) refl (λ k. refl) in
    let c = count-drop but_first but_two buddy_blocks 1 (omega arith) refl (λ k. refl) in
    let d = count-ext _ but_two buddy_blocks (λ k l. start_free base blocks z k) in
    omega (arith, every_free, b, c, d)

pub started-IsHeap :
    (base : ℕ) (blocks : BuddyBlocks)
    → base + heap_size < 2 ^ 31
    → StartsEmpty blocks
    → IsHeap (global_buddy_allocator_init base blocks) base (base + heap_size) (whole_heap ∷ [])
unfolding global_buddy_allocator_init Chain
started-IsHeap base blocks l z = record {
  chain = (
    record {
      pointer = refl;
      positive = omega arith;
      below = omega arith;
      base = refl;
      size = refl;
      used = refl;
    },
    (refl, refl),
  );
  root = refl;
  counted = ap (λ k. k + 1) (start_count base blocks z);
  end = l;
}

-- A block that is found stands in the chain.
Located : ℕ → ℕ → List Segment → Outcome ℕ → Type 0
Located address a ss (ok p) =
    (p ≡ no_block)
    ⊎ ((front : List Segment) × (s : Segment) × (rest : List Segment) × (ss ≡ front ++ s ∷ rest)
        × (address ≡ behind_all a (view front)))
Located address a ss panic = ⊥
Located address a ss hang = ⊥

Located-behind :
    (address a : ℕ) (s : Segment) (ss : List Segment) (x : Outcome ℕ)
    → Located address (a + size_of s) ss x
    → Located address a (s ∷ ss) x
unfolding Located
Located-behind address a s ss (ok p) (inl e) = inl e
Located-behind address a s ss (ok p) (inr (front, t, rest, e, f)) =
    inr (s ∷ front, t, rest, ap (λ l. s ∷ l) e, f)
Located-behind address a s ss panic h = h
Located-behind address a s ss hang h = h

find_address-Located :
    (blocks : BuddyBlocks) (limit address rounds q a : ℕ) (ss : List Segment)
    → length ss < rounds
    → Chain blocks limit q a ss
    → Located address a ss (find_address rounds blocks address q)
unfolding find_address Chain Located
find_address-Located blocks limit address zero q a ss l c = absurd (omega (arith, l))
find_address-Located blocks limit address (suc rounds) q a [] l (e, f) =
    rw (eq→== q no_block e) (inl e)
find_address-Located blocks limit address (suc rounds) q a (s ∷ ss) l (c, t) =
    let n = ne→== s.index no_block (λ q. omega (arith, q, c.below)) in
    subst (λ i. Located address a (s ∷ ss) (find_address (suc rounds) blocks address i))
      (sym c.pointer)
      (elim (Bool-cases ((blocks s.index).base_address == address)) [
        | inl e ↦ rw (n, e) (inr ([], s, ss, refl, sym (==→eq _ address e) ∙ c.base))
        | inr e ↦
            rw (n, e)
              (Located-behind address a s ss _ (
                find_address-Located blocks limit address rounds (blocks s.index).next
                  (a + size_of s) ss (omega (arith, l)) t))
      ])

Kept : ℕ → BuddyBlocks → Type 0
Kept base blocks = (ss : List Segment) × IsHeap blocks base (base + heap_size) ss

given-Kept :
    (base n : ℕ) (blocks blocks' : BuddyBlocks) (memory memory' : Bytes) (address : ℕ)
    → 0 < n
    → malloc blocks memory n ≡ ok (address, blocks', memory')
    → Kept base blocks
    → Kept base blocks'
unfolding Kept Given
given-Kept base n blocks blocks' memory memory' address z e (ss, h) =
    let (ss', t, h', m) =
      subst (Given base (base + heap_size) n ss memory) e
        (malloc-Given blocks memory base (base + heap_size) n ss h z) in
    (ss', h')

released-Kept :
    (base address p : ℕ) (blocks blocks' : BuddyBlocks) (ss : List Segment)
    → ¬ (p ≡ no_block)
    → free blocks address ≡ ok blocks'
    → IsHeap blocks base (base + heap_size) ss
    → Located address base ss (ok p)
    → Kept base blocks'
unfolding Kept Located Merged
released-Kept base address p blocks blocks' ss n e h (inl f) = absurd (n f)
released-Kept base address p blocks blocks' ss n e h (inr (front, s, rest, f, g)) =
    let (ss', h', j, z) = subst (Merged base (base + heap_size) _) (ap (free blocks) (sym g) ∙ e) (
      free-Merged blocks base (base + heap_size) front s rest
        (subst (IsHeap blocks base (base + heap_size)) f h)) in
    (ss', h')

-- From the start on, whatever blocks are given out and given back, the blocks follow each other
-- without a gap and without an overlap from the one end of the heap to the other, and every other
-- entry of the array is free.
pub Reachable-IsHeap :
    (base : ℕ) (blocks : BuddyBlocks)
    → base + heap_size < 2 ^ 31
    → Reachable base blocks
    → (ss : List Segment) × IsHeap blocks base (base + heap_size) ss
unfolding Kept
Reachable-IsHeap base _ l (started blocks z) = (whole_heap ∷ [], started-IsHeap base blocks l z)
Reachable-IsHeap base _ l (given blocks blocks' memory memory' n address r z e) =
    given-Kept base n blocks blocks' memory memory' address z e (Reachable-IsHeap base blocks l r)
Reachable-IsHeap base _ l (released blocks blocks' address p r f n e) =
    let (ss, h) = Reachable-IsHeap base blocks l r in
    released-Kept base address p blocks blocks' ss n e h (
      subst (Located address base ss) f (
        find_address-Located blocks (base + heap_size) address (suc buddy_blocks) (blocks 0).next
          base ss (omega (arith, h.counted)) h.chain))
