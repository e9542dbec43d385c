-- ===== src/Memory/Buddy/Chain.antt =====
-- The chain of blocks of kernel/memory/buddy.c.
use gos_v.Common.{
  ℕ, ◌+◌, ◌^◌, ◌<◌, ◌≤◌, ◌≡◌, ap, sym, ◌∙◌, subst, ◌⊎◌, inl, inr, arith, Bool, List, [], ◌∷◌, ◌++◌,
}
use native.Mathlib.Nat.{one-le-pow}
use gos_v.Memory.Buddy.{BuddyBlocks, buddy_blocks, no_block}

-- A block of the chain: its entry in the array, its size as a power of two, whether it is in use.
pub record Segment : Type 0 where
  pub index : ℕ
  pub order : ℕ
  pub used : Bool

abbrev pub size_of : Segment → ℕ
size_of s = 2 ^ s.order

-- The entry that `q` leads to is the segment, at the address.
pub record Cell (blocks : BuddyBlocks) (s : Segment) (q address : ℕ) : Type 0 where
  pub pointer : q ≡ s.index
  pub positive : 0 < s.index
  pub below : s.index < buddy_blocks
  pub base : (blocks s.index).base_address ≡ address
  pub size : (blocks s.index).block_size ≡ size_of s
  pub used : (blocks s.index).is_used ≡ s.used

-- From `q` on the segments follow each other without a gap, from an address to the end of the heap.
unfoldable pub Chain : BuddyBlocks → ℕ → ℕ → ℕ → List Segment → Type 0
Chain blocks limit q address [] = (q ≡ no_block) × (address ≡ limit)
Chain blocks limit q address (s ∷ ss) =
    Cell blocks s q address × Chain blocks limit (blocks s.index).next (address + size_of s) ss

-- From an entry on the segments lead to the entry `pre` and end at an address.
unfoldable pub Trail : BuddyBlocks → ℕ → ℕ → List Segment → ℕ → ℕ → Type 0
Trail blocks pre0 address [] pre end = (pre0 ≡ pre) × (address ≡ end)
Trail blocks pre0 address (s ∷ ss) pre end =
    Cell blocks s (blocks pre0).next address × Trail blocks s.index (address + size_of s) ss pre end

pub size-positive : (s : Segment) → 0 < size_of s
size-positive s = one-le-pow s.order 2 (omega arith)

pub Chain-pointer :
    (blocks : BuddyBlocks) (limit q address : ℕ) (ss : List Segment)
    → Chain blocks limit q address ss
    → 0 < q
unfolding Chain
Chain-pointer blocks limit q address [] (e, f) = omega (arith, e)
Chain-pointer blocks limit q address (s ∷ ss) (c, t) = omega (arith, c.pointer, c.positive)

Cell-same :
    (blocks blocks' : BuddyBlocks) (s : Segment) (q address : ℕ)
    → blocks' s.index ≡ blocks s.index
    → Cell blocks s q address
    → Cell blocks' s q address
Cell-same blocks blocks' s q address e c = record {
  pointer = c.pointer;
  positive = c.positive;
  below = c.below;
  base = ap (λ b. b.base_address) e ∙ c.base;
  size = ap (λ b. b.block_size) e ∙ c.size;
  used = ap (λ b. b.is_used) e ∙ c.used;
}

-- A change of entries that are not in the chain.
pub Chain-same :
    (blocks blocks' : BuddyBlocks) (limit q address : ℕ) (ss : List Segment)
    → ((i : ℕ)
        → 0 < i
        → address ≤ (blocks i).base_address
        → 0 < (blocks i).next
        → blocks' i ≡ blocks i)
    → Chain blocks limit q address ss
    → Chain blocks' limit q address ss
unfolding Chain
Chain-same blocks blocks' limit q address [] same c = c
Chain-same blocks blocks' limit q address (s ∷ ss) same (c, t) =
    let e = same s.index c.positive (omega (arith, c.base)) (Chain-pointer blocks limit _ _ ss t) in
    let p = size-positive s in
    (
      Cell-same blocks blocks' s q address e c,
      subst (λ n. Chain blocks' limit n (address + size_of s) ss) (ap (λ b. b.next) (sym e))
          (Chain-same blocks blocks' limit (blocks s.index).next (address + size_of s) ss
            (λ i h l n. same i h (omega (arith, p, l)) n) t),
    )

-- A path may be cut anywhere.
pub Chain-append :
    (blocks : BuddyBlocks) (limit pre0 address pre end : ℕ) (front ss : List Segment)
    → Trail blocks pre0 address front pre end
    → Chain blocks limit (blocks pre).next end ss
    → Chain blocks limit (blocks pre0).next address (front ++ ss)
unfolding Chain Trail
Chain-append blocks limit pre0 address pre end [] ss (e, f) c =
    subst (λ a. Chain blocks limit (blocks pre0).next a ss) (sym f)
      (subst (λ i. Chain blocks limit (blocks i).next end ss) (sym e) c)
Chain-append blocks limit pre0 address pre end (s ∷ front) ss (c, p) t =
    (c, Chain-append blocks limit s.index (address + size_of s) pre end front ss p t)

-- Where the last entry of a path stands.
pub Trail-last :
    (blocks : BuddyBlocks) (pre0 address pre end : ℕ) (front : List Segment)
    → Trail blocks pre0 address front pre end
    → (address ≤ end)
      × (((pre ≡ pre0) × (end ≡ address))
          ⊎ ((0 < pre)
              × (pre < buddy_blocks)
              × (address ≤ (blocks pre).base_address)
              × ((blocks pre).base_address < end)))
unfolding Trail
Trail-last blocks pre0 address pre end [] (e, f) = (omega (arith, f), inl (sym e, sym f))
Trail-last blocks pre0 address pre end (s ∷ front) (c, p) =
    last_of (Trail-last blocks s.index (address + size_of s) pre end front p)
  where
    last_of :
        (address + size_of s ≤ end)
          × (((pre ≡ s.index) × (end ≡ address + size_of s))
              ⊎ ((0 < pre)
                  × (pre < buddy_blocks)
                  × (address + size_of s ≤ (blocks pre).base_address)
                  × ((blocks pre).base_address < end)))
        → (address ≤ end)
          × (((pre ≡ pre0) × (end ≡ address))
              ⊎ ((0 < pre)
                  × (pre < buddy_blocks)
                  × (address ≤ (blocks pre).base_address)
                  × ((blocks pre).base_address < end)))
    last_of (l, inl (e, f)) =
        let z = size-positive s in
        let b = ap (λ i. (blocks i).base_address) e ∙ c.base in
        (
          omega (arith, l),
          inr (
            omega (arith, e, c.positive),
            omega (arith, e, c.below),
            omega (arith, b),
            omega (arith, b, f, z),
          ),
        )
    last_of (l, inr (g, h, a, b)) =
        let z = size-positive s in (omega (arith, l), inr (g, h, omega (arith, a), b))

pub Trail-next :
    (blocks : BuddyBlocks) (pre0 address pre end : ℕ) (front : List Segment)
    → Trail blocks pre0 address front pre end
    → 0 < (blocks pre).next
    → 0 < (blocks pre0).next
unfolding Trail
Trail-next blocks pre0 address pre end [] (e, f) n = subst (λ i. 0 < (blocks i).next) (sym e) n
Trail-next blocks pre0 address pre end (s ∷ front) (c, p) n = omega (arith, c.pointer, c.positive)

-- An entry before a segment is not the last of the path behind it.
apart :
    (blocks : BuddyBlocks) (s : Segment) (pre0 address pre end : ℕ)
    → Cell blocks s (blocks pre0).next address
    → (pre0 ≡ 0) ⊎ ((0 < pre0) × ((blocks pre0).base_address < address))
    → ((pre ≡ s.index) × (end ≡ address + size_of s))
      ⊎ ((0 < pre)
          × (pre < buddy_blocks)
          × (address + size_of s ≤ (blocks pre).base_address)
          × ((blocks pre).base_address < end))
    → ¬ (pre0 ≡ pre)
apart blocks s pre0 address pre end c (inl h) (inl (e, f)) q = omega (arith, q, e, h, c.positive)
apart blocks s pre0 address pre end c (inr (h, k)) (inl (e, f)) q =
    let b = ap (λ i. (blocks i).base_address) (q ∙ e) in omega (arith, b, k, c.base)
apart blocks s pre0 address pre end c (inl h) (inr (g, k, a, b)) q = omega (arith, q, g, h)
apart blocks s pre0 address pre end c (inr (h, m)) (inr (g, k, a, b)) q =
    let t = ap (λ i. (blocks i).base_address) q in omega (arith, t, m, a)

below_end :
    (base pre0 address end : ℕ)
    → address ≤ end
    → (pre0 ≡ 0) ⊎ ((0 < pre0) × (base < address))
    → (pre0 ≡ 0) ⊎ ((0 < pre0) × (base < end))
below_end base pre0 address end l (inl h) = inl h
below_end base pre0 address end l (inr (h, k)) = inr (h, omega (arith, l, k))

-- A change of what lies outside the path, and of where its last entry leads.
pub Trail-same :
    (blocks blocks' : BuddyBlocks) (pre0 address pre end : ℕ) (front : List Segment)
    → ((i : ℕ)
        → 0 < i
        → (blocks i).base_address < end
        → 0 < (blocks i).next
        → ((blocks' i).base_address ≡ (blocks i).base_address)
          × ((blocks' i).block_size ≡ (blocks i).block_size)
          × ((blocks' i).is_used ≡ (blocks i).is_used))
    → ((i : ℕ)
        → ¬ (i ≡ pre)
        → (i ≡ 0) ⊎ ((0 < i) × ((blocks i).base_address < end))
        → 0 < (blocks i).next
        → (blocks' i).next ≡ (blocks i).next)
    → (pre0 ≡ 0) ⊎ ((0 < pre0) × ((blocks pre0).base_address < address))
    → 0 < (blocks pre).next
    → Trail blocks pre0 address front pre end
    → Trail blocks' pre0 address front pre end
unfolding Trail
Trail-same blocks blocks' pre0 address pre end [] kept next h n p = p
Trail-same blocks blocks' pre0 address pre end (s ∷ front) kept next h n (c, p) =
    let z = size-positive s in
    let (l, o) = Trail-last blocks s.index (address + size_of s) pre end front p in
    let (a, b, d) =
      kept s.index c.positive (omega (arith, c.base, l, z))
        (Trail-next blocks s.index _ pre end front p n) in
    let m =
      next pre0 (apart blocks s pre0 address pre end c h o)
        (below_end (blocks pre0).base_address pre0 address end (omega (arith, l)) h)
        (omega (arith, c.pointer, c.positive)) in
    (
      record {
        pointer = m ∙ c.pointer;
        positive = c.positive;
        below = c.below;
        base = a ∙ c.base;
        size = b ∙ c.size;
        used = d ∙ c.used;
      },
      Trail-same blocks blocks' s.index (address + size_of s) pre end front kept next
          (inr (c.positive, omega (arith, c.base, z))) n p,
    )

pub Chain-end :
    (blocks : BuddyBlocks) (limit q address : ℕ) (ss : List Segment)
    → Chain blocks limit q address ss
    → address ≤ limit
unfolding Chain
Chain-end blocks limit q address [] (e, f) = omega (arith, f)
Chain-end blocks limit q address (s ∷ ss) (c, t) =
    let h = Chain-end blocks limit (blocks s.index).next (address + size_of s) ss t in
    omega (arith, h)
