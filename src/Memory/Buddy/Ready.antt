-- ===== src/Memory/Buddy/Ready.antt =====
-- A free block in the chain of kernel/memory/buddy.c, and what remains of it when it is split.
use gos_v.Common.{
  ℕ, suc, ◌+◌, ◌*◌, ◌^◌, ◌<◌, ◌≤◌, ◌≡◌, refl, ap, sym, ◌∙◌, subst, ◌⊎◌, inl, inr, arith, false,
  Bool-cases, ==→eq, ==→ne, List, ◌∷◌, length, ◌==◌,
}
use native.Mathlib.Omega.{pow_step}
use gos_v.Memory.Buddy.{BuddyBlocks, buddy_blocks}
use gos_v.Memory.Buddy.Chain.{
  Segment, size_of, Cell, Chain, Trail, size-positive, Chain-pointer, Chain-same, Trail-last,
  Trail-same, Trail-next,
}
use gos_v.Memory.Buddy.Entries.{free_count}
use gos_v.Memory.Buddy.Linked.{Split}

-- A free block `s` in the chain of the whole heap, behind the entry `pre`.
pub record Ready (blocks : BuddyBlocks) (base limit : ℕ) (front : List Segment) (s : Segment)
    (rest : List Segment) (pre a : ℕ) : Type 0 where
  pub path : Trail blocks 0 base front pre a
  pub cell : Cell blocks s (blocks pre).next a
  pub tail : Chain blocks limit (blocks s.index).next (a + size_of s) rest
  pub unused : s.used ≡ false
  pub root : (blocks 0).base_address ≡ base
  pub counted : free_count blocks + (length front + length rest) ≡ 1022
  pub end : a + size_of s < 2 ^ 31

module _ (blocks : BuddyBlocks) (base limit : ℕ) (front : List Segment) (s : Segment)
    (rest : List Segment) (pre a e : ℕ) (r : Ready blocks base limit front s rest pre a)
    (order : s.order ≡ suc e) where
  abbrev pub half : ℕ
  half = 2 ^ e

  pub pre-next : 0 < (blocks pre).next
  pre-next = omega (arith, r.cell.pointer, r.cell.positive)

  pub s-next : 0 < (blocks s.index).next
  s-next = Chain-pointer blocks limit _ _ rest r.tail

  pub root-next : 0 < (blocks 0).next
  root-next = Trail-next blocks 0 base pre a front r.path pre-next

  whole : size_of s ≡ 2 * half
  whole = ap (λ k. 2 ^ k) order ∙ pow_step 2 e

  pub other : ¬ (pre ≡ s.index)
  other q = place (Trail-last blocks 0 base pre a front r.path)
    where
      place :
          (base ≤ a)
            × (((pre ≡ 0) × (a ≡ base))
                ⊎ ((0 < pre)
                    × (pre < buddy_blocks)
                    × (base ≤ (blocks pre).base_address)
                    × ((blocks pre).base_address < a)))
          → ⊥
      place (l, inl (x, y)) = omega (arith, x, q, r.cell.positive)
      place (l, inr (x, y, z, w)) =
          let t = ap (λ i. (blocks i).base_address) q in omega (arith, t, w, r.cell.base)

  module _ (blocks' : BuddyBlocks) (block1 : ℕ) (t : Split blocks blocks' pre s.index block1) where
    abbrev pub first : Segment
    first = record { index = block1; order = e; used = false }

    abbrev pub second : Segment
    second = record { index = t.block2; order = e; used = false }

    doubled : size_of s ≡ 2 * half → a + size_of s ≡ a + half + half
    doubled q = omega (arith, q)

    pre_after : (i : ℕ) → i ≡ pre → blocks' i ≡ record (blocks i) { next = block1 }
    pre_after i q = subst (λ k. blocks' k ≡ record (blocks k) { next = block1 }) (sym q) t.at_pre

    kept :
        (i : ℕ)
        → 0 < i
        → (blocks i).base_address < a
        → 0 < (blocks i).next
        → ((blocks' i).base_address ≡ (blocks i).base_address)
          × ((blocks' i).block_size ≡ (blocks i).block_size)
          × ((blocks' i).is_used ≡ (blocks i).is_used)
    kept i h b n = elim (Bool-cases (i == pre)) [
      | inl q ↦
          let z = pre_after i (==→eq i pre q) in
          (ap (λ v. v.base_address) z, ap (λ v. v.block_size) z, ap (λ v. v.is_used) z)
      | inr q ↦
          let z = t.others i n (==→ne i pre q) (λ w.
            let v = ap (λ k. (blocks k).base_address) w in omega (arith, v, b, r.cell.base)) in
          (ap (λ v. v.base_address) z, ap (λ v. v.block_size) z, ap (λ v. v.is_used) z)
    ]

    -- What stands before the block is not the block.
    before : (i : ℕ) → (i ≡ 0) ⊎ ((0 < i) × ((blocks i).base_address < a)) → ¬ (i ≡ s.index)
    before i (inl x) w = omega (arith, x, w, r.cell.positive)
    before i (inr (x, y)) w =
        let v = ap (λ k. (blocks k).base_address) w in omega (arith, v, y, r.cell.base)

    halved-Trail : Trail blocks' 0 base front pre a
    halved-Trail =
        Trail-same blocks blocks' 0 base pre a front kept
          (λ i x o n. ap (λ v. v.next) (t.others i n x (before i o))) (inl refl) pre-next r.path

    -- What stands behind the block is neither the block nor the one before it.
    behind_pre : (i : ℕ) → 0 < i → a + size_of s ≤ (blocks i).base_address → ¬ (i ≡ pre)
    behind_pre i h l q = place (Trail-last blocks 0 base pre a front r.path)
      where
        place :
            (base ≤ a)
              × (((pre ≡ 0) × (a ≡ base))
                  ⊎ ((0 < pre)
                      × (pre < buddy_blocks)
                      × (base ≤ (blocks pre).base_address)
                      × ((blocks pre).base_address < a)))
            → ⊥
        place (m, inl (x, y)) = omega (arith, x, q, h)
        place (m, inr (x, y, z, w)) =
            let v = ap (λ k. (blocks k).base_address) q in omega (arith, v, w, l)

    behind_s : (i : ℕ) → a + size_of s ≤ (blocks i).base_address → ¬ (i ≡ s.index)
    behind_s i l q =
        let v = ap (λ k. (blocks k).base_address) q in
        let z = size-positive s in omega (arith, v, l, z, r.cell.base)

    halved-rest : Chain blocks' limit (blocks' t.block2).next (a + half + half) rest
    halved-rest =
        subst (λ q. Chain blocks' limit q (a + half + half) rest) (ap (λ v. v.next) (sym t.at2))
          (subst (λ z. Chain blocks' limit (blocks s.index).next z rest) (doubled whole)
            (Chain-same blocks blocks' limit (blocks s.index).next (a + size_of s) rest
              (λ i h l n. t.others i n (behind_pre i h l) (behind_s i l)) r.tail))

    root_after : (blocks' 0).base_address ≡ (blocks 0).base_address
    root_after = elim (Bool-cases (0 == pre)) [
      | inl q ↦ ap (λ v. v.base_address) (pre_after 0 (==→eq 0 pre q))
      | inr q ↦
          ap (λ v. v.base_address) (t.others 0 root-next (==→ne 0 pre q) (before 0 (inl refl)))
    ]

    pub halved-Ready : Ready blocks' base limit front first (second ∷ rest) pre a
    unfolding Chain
    halved-Ready =
        let w = r.cell.size ∙ whole in
        record {
          path = halved-Trail;
          cell = record {
            pointer = ap (λ v. v.next) t.at_pre;
            positive = t.positive1;
            below = t.below1;
            base = ap (λ v. v.base_address) t.at1 ∙ r.cell.base;
            size = ap (λ v. v.block_size) t.at1 ∙ omega (arith, w);
            used = ap (λ v. v.is_used) t.at1;
          };
          tail = (
            record {
              pointer = ap (λ v. v.next) t.at1;
              positive = t.positive2;
              below = t.below2;
              base = ap (λ v. v.base_address) t.at2 ∙ omega (arith, w, r.cell.base, r.end, whole);
              size = ap (λ v. v.block_size) t.at2 ∙ omega (arith, w);
              used = ap (λ v. v.is_used) t.at2;
            },
            halved-rest,
          );
          unused = refl;
          root = root_after ∙ r.root;
          counted = omega (arith, r.counted, t.counted);
          end = omega (arith, r.end, whole);
        }
