-- ===== src/Memory/Buddy/Merged.antt =====
-- The merging of two blocks by kernel/memory/buddy.c.
use gos_v.Common.{
  ℕ, suc, ◌+◌, ◌*◌, ◌%◌, ◌^◌, ◌<◌, ◌≤◌, ◌≡◌, refl, ap, sym, ◌∙◌, subst, ◌⊎◌, inl, inr, arith, true,
  false, Bool-cases, ==→eq, ==→ne, ne→==, eq→==, List, ◌∷◌, length, ◌==◌, if◌then◌else◌,
}
use native.Mathlib.Omega.{pow_step}
use gos_v.Common.Count.{count-add}
use gos_v.Memory.Buddy.{BuddyBlocks, buddy_blocks, set_block, set_next, free_block, merge}
use gos_v.Memory.Buddy.Chain.{
  Segment, size_of, Cell, Chain, Trail, size-positive, Chain-pointer, Chain-same, Chain-end,
  Trail-last, Trail-same,
}
use gos_v.Memory.Buddy.Entries.{free_count}

-- A block in the chain of the whole heap, behind the entry `pre`, and what follows it.
pub record At (blocks : BuddyBlocks) (base limit : ℕ) (front : List Segment) (s : Segment)
    (rest : List Segment) (pre a : ℕ) : Type 0 where
  pub path : Trail blocks 0 base front pre a
  pub cell : Cell blocks s (blocks pre).next a
  pub tail : Chain blocks limit (blocks s.index).next (a + size_of s) rest
  pub root : (blocks 0).base_address ≡ base
  pub counted : free_count blocks + (length front + length rest) ≡ 1022
  pub end : limit < 2 ^ 31

-- The entries of the array after a merge of `p` into `pre`.
module _ (blocks : BuddyBlocks) (pre p : ℕ) (d : ¬ (pre ≡ p)) where
  merge_other : (i : ℕ) → ¬ (i ≡ pre) → ¬ (i ≡ p) → merge blocks pre p i ≡ blocks i
  unfolding merge free_block set_next set_block
  merge_other i x y = rw (ne→== i p y, ne→== i pre x) refl

  merge_first : merge blocks pre p pre ≡ record (blocks pre) {
    block_size = (blocks pre).block_size * 2 % 2 ^ 32;
    next = (blocks p).next;
  }
  unfolding merge free_block set_next set_block
  merge_first = rw (ne→== pre p d, eq→== pre pre refl) refl

  merge_second : (merge blocks pre p p).next ≡ 0
  unfolding merge free_block set_next set_block
  merge_second = rw (eq→== p p refl) refl

  merge_free :
      0 < (blocks pre).next
      → 0 < (blocks p).next
      → (k : ℕ)
      → ((merge blocks pre p k).next == 0) ≡ (if k == p then true else (blocks k).next == 0)
  merge_free n m k = elim (Bool-cases (k == p)) [
    | inl x ↦ rw x (eq→== _ 0 (ap (λ v. (merge blocks pre p v).next) (==→eq k p x) ∙ merge_second))
    | inr x ↦ elim (Bool-cases (k == pre)) [
      | inl y ↦
          let t =
            ap (λ v. (merge blocks pre p v).next) (==→eq k pre y) ∙ ap (λ v. v.next) merge_first in
          let u = ap (λ v. (blocks v).next) (==→eq k pre y) in
          rw x (
            ne→== _ 0 (λ q. omega (arith, t, q, m)) ∙ sym (ne→== _ 0 (λ q. omega (arith, u, q, n))))
      | inr y ↦ rw x (ap (λ v. v.next == 0) (merge_other k (==→ne k pre y) (==→ne k p x)))
    ]
  ]

  merge_count :
      p < buddy_blocks
      → 0 < (blocks pre).next
      → 0 < (blocks p).next
      → free_count (merge blocks pre p) ≡ suc (free_count blocks)
  unfolding free_count
  merge_count l n m =
      count-add (λ k. (blocks k).next == 0) (λ k. (merge blocks pre p k).next == 0) buddy_blocks p l
        (ne→== _ 0 (λ q. omega (arith, q, m))) (merge_free n m)

module _ (blocks : BuddyBlocks) (base limit : ℕ) (front : List Segment) (s t : Segment)
    (rest : List Segment) (pre a : ℕ) (x : At blocks base limit front s (t ∷ rest) pre a)
    (c : Cell blocks t (blocks s.index).next (a + size_of s))
    (h : Chain blocks limit (blocks t.index).next (a + size_of s + size_of t) rest)
    (e : size_of s ≡ size_of t) (u : s.used ≡ false) where
  abbrev pub whole : Segment
  whole = record { index = s.index; order = suc s.order; used = false }

  abbrev merged : BuddyBlocks
  merged = merge blocks s.index t.index

  apart : ¬ (s.index ≡ t.index)
  apart q =
      let v = ap (λ k. (blocks k).base_address) q in
      let z = size-positive s in omega (arith, v, x.cell.base, c.base, z)

  s-next : 0 < (blocks s.index).next
  s-next = omega (arith, c.pointer, c.positive)

  t-next : 0 < (blocks t.index).next
  t-next = Chain-pointer blocks limit _ _ rest h

  before : (i : ℕ) → (blocks i).base_address < a → merged i ≡ blocks i
  before i b =
      merge_other blocks s.index t.index apart i
        (λ q. let v = ap (λ k. (blocks k).base_address) q in omega (arith, v, b, x.cell.base))
        (λ q. let v = ap (λ k. (blocks k).base_address) q in omega (arith, v, b, c.base))

  root_same : merged 0 ≡ blocks 0
  root_same =
      merge_other blocks s.index t.index apart 0 (λ q. omega (arith, q, x.cell.positive))
        (λ q. omega (arith, q, c.positive))

  front-next :
      (i : ℕ)
      → (i ≡ 0) ⊎ ((0 < i) × ((blocks i).base_address < a))
      → (merged i).next ≡ (blocks i).next
  front-next i (inl z) =
      subst (λ k. (merged k).next ≡ (blocks k).next) (sym z) (ap (λ v. v.next) root_same)
  front-next i (inr (z, b)) = ap (λ v. v.next) (before i b)

  pre-next : (merged pre).next ≡ (blocks pre).next
  pre-next = place (Trail-last blocks 0 base pre a front x.path)
    where
      place :
          (base ≤ a)
            × (((pre ≡ 0) × (a ≡ base))
                ⊎ ((0 < pre)
                    × (pre < buddy_blocks)
                    × (base ≤ (blocks pre).base_address)
                    × ((blocks pre).base_address < a)))
          → (merged pre).next ≡ (blocks pre).next
      place (l, inl (y, z)) = front-next pre (inl y)
      place (l, inr (y, z, w, v)) = front-next pre (inr (y, v))

  merged-tail : Chain merged limit (merged s.index).next (a + 2 ^ suc s.order) rest
  merged-tail =
      let w = pow_step 2 s.order in
      let z = size-positive s in
      subst (λ q. Chain merged limit q (a + 2 ^ suc s.order) rest)
        (sym (ap (λ v. v.next) (merge_first blocks s.index t.index apart)))
        (subst (λ q. Chain merged limit (blocks t.index).next q rest) (omega (arith, w, e))
          (Chain-same blocks merged limit (blocks t.index).next (a + size_of s + size_of t) rest
            (λ i y l n.
              merge_other blocks s.index t.index apart i
                (λ q.
                  let v = ap (λ k. (blocks k).base_address) q in
                  omega (arith, v, l, x.cell.base, z))
                (λ q.
                  let v = ap (λ k. (blocks k).base_address) q in omega (arith, v, l, c.base, e, z)))
            h))

  pub merged-At : At merged base limit front whole rest pre a
  merged-At =
      let w = pow_step 2 s.order in
      let k = Chain-end blocks limit _ _ rest h in
      let f = merge_first blocks s.index t.index apart in
      let m = merge_count blocks s.index t.index apart c.below s-next t-next in
      record {
        path =
            Trail-same blocks merged 0 base pre a front
              (λ i y b n.
                let q = before i b in
                (ap (λ v. v.base_address) q, ap (λ v. v.block_size) q, ap (λ v. v.is_used) q))
              (λ i y b n. front-next i b) (inl refl)
              (omega (arith, x.cell.pointer, x.cell.positive)) x.path;
        cell = record {
          pointer = pre-next ∙ x.cell.pointer;
          positive = x.cell.positive;
          below = x.cell.below;
          base = ap (λ v. v.base_address) f ∙ x.cell.base;
          size = ap (λ v. v.block_size) f ∙ omega (arith, w, k, e, x.end, x.cell.size);
          used = ap (λ v. v.is_used) f ∙ x.cell.used ∙ u;
        };
        tail = merged-tail;
        root = ap (λ v. v.base_address) root_same ∙ x.root;
        counted = omega (arith, m, x.counted);
        end = x.end;
      }
