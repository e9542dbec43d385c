-- ===== src/Memory/Buddy/Linked.antt =====
-- The entries of the array of kernel/memory/buddy.c once the halves of a block have taken its place.
use gos_v.Common.{
  ℕ, suc, ◌+◌, ◌/◌, ◌%◌, ◌^◌, ◌<◌, ◌≡◌, refl, ap, sym, ◌∙◌, subst, inl, inr, arith, Bool, true,
  false, Bool-cases, ==→eq, ==→ne, ne→==, eq→==, ◌==◌, if◌then◌else◌,
}
use gos_v.Common.Count.{count-drop, count-add, count-ext}
use gos_v.Memory.Buddy.{BuddyBlocks, buddy_blocks, set_block, set_next, free_block, link_halves}
use gos_v.Memory.Buddy.Entries.{free_count, emptied}

-- The array after a block was split.
pub record Split (blocks blocks' : BuddyBlocks) (pre p block1 : ℕ) : Type 0 where
  pub block2 : ℕ
  pub positive1 : 0 < block1
  pub below1 : block1 < buddy_blocks
  pub free1 : (blocks block1).next ≡ 0
  pub positive2 : 0 < block2
  pub below2 : block2 < buddy_blocks
  pub free2 : (blocks block2).next ≡ 0
  pub at1 : blocks' block1 ≡ record {
    base_address = (blocks p).base_address;
    block_size = (blocks p).block_size / 2;
    is_used = false;
    next = block2;
  }
  pub at2 : blocks' block2 ≡ record {
    base_address = ((blocks p).base_address + (blocks p).block_size / 2) % 2 ^ 32;
    block_size = (blocks p).block_size / 2;
    is_used = false;
    next = (blocks p).next;
  }
  pub at_pre : blocks' pre ≡ record (blocks pre) { next = block1 }
  pub others : (i : ℕ) → 0 < (blocks i).next → ¬ (i ≡ pre) → ¬ (i ≡ p) → blocks' i ≡ blocks i
  pub counted : free_count blocks ≡ suc (free_count blocks')

pub differ :
    (blocks : BuddyBlocks) (i j : ℕ) → (blocks i).next ≡ 0 → 0 < (blocks j).next → ¬ (i ≡ j)
differ blocks i j e n q = let t = ap (λ k. (blocks k).next) q in omega (arith, t, e, n)

pub second_free :
    (blocks : BuddyBlocks) (block1 block2 : ℕ)
    → (set_block blocks block1 emptied block2).next ≡ 0
    → ¬ (block2 ≡ block1) × ((blocks block2).next ≡ 0)
unfolding set_block
second_free blocks block1 block2 f = elim (Bool-cases (block2 == block1)) [
  | inl e ↦
      let t = subst (λ b. (if b then emptied else blocks block2).next ≡ 0) e f in
      absurd (omega (arith, t))
  | inr e ↦
      (==→ne block2 block1 e, subst (λ b. (if b then emptied else blocks block2).next ≡ 0) e f)
]

abbrev pub taken_two : BuddyBlocks → ℕ → ℕ → BuddyBlocks
taken_two blocks block1 block2 = set_block (set_block blocks block1 emptied) block2 emptied

-- The entries after a split.
module _ (blocks : BuddyBlocks) (pre p block1 block2 : ℕ) (n : 0 < (blocks pre).next)
    (m : 0 < (blocks p).next) (d : ¬ (pre ≡ p)) (f1 : (blocks block1).next ≡ 0)
    (f2 : (blocks block2).next ≡ 0) (e : ¬ (block2 ≡ block1)) where
  n1p : (block1 == p) ≡ false
  n1p = ne→== block1 p (differ blocks block1 p f1 m)

  n2p : (block2 == p) ≡ false
  n2p = ne→== block2 p (differ blocks block2 p f2 m)

  n1q : (block1 == pre) ≡ false
  n1q = ne→== block1 pre (differ blocks block1 pre f1 n)

  n2q : (block2 == pre) ≡ false
  n2q = ne→== block2 pre (differ blocks block2 pre f2 n)

  np1 : (p == block1) ≡ false
  np1 = ne→== p block1 (λ q. differ blocks block1 p f1 m (sym q))

  np2 : (p == block2) ≡ false
  np2 = ne→== p block2 (λ q. differ blocks block2 p f2 m (sym q))

  nq1 : (pre == block1) ≡ false
  nq1 = ne→== pre block1 (λ q. differ blocks block1 pre f1 n (sym q))

  nq2 : (pre == block2) ≡ false
  nq2 = ne→== pre block2 (λ q. differ blocks block2 pre f2 n (sym q))

  n12 : (block1 == block2) ≡ false
  n12 = ne→== block1 block2 (λ q. e (sym q))

  abbrev pub linked : BuddyBlocks
  linked = link_halves (taken_two blocks block1 block2) pre p block1 block2

  pub linked1 : linked block1 ≡ record {
    base_address = (blocks p).base_address;
    block_size = (blocks p).block_size / 2;
    is_used = false;
    next = block2;
  }
  unfolding link_halves set_block set_next free_block
  linked1 = rw (n1p, n1q, n12, eq→== block1 block1 refl, np2, np1) refl

  pub linked2 : linked block2 ≡ record {
    base_address = ((blocks p).base_address + (blocks p).block_size / 2) % 2 ^ 32;
    block_size = (blocks p).block_size / 2;
    is_used = false;
    next = (blocks p).next;
  }
  unfolding link_halves set_block set_next free_block
  linked2 = rw (n2p, n2q, eq→== block2 block2 refl, np1, np2, ne→== block2 block1 e) refl

  pub linked_pre : linked pre ≡ record (blocks pre) { next = block1 }
  unfolding link_halves set_block set_next free_block
  linked_pre = rw (ne→== pre p d, eq→== pre pre refl, nq2, nq1) refl

  pub linked_others : (i : ℕ) → 0 < (blocks i).next → ¬ (i ≡ pre) → ¬ (i ≡ p) → linked i ≡ blocks i
  unfolding link_halves set_block set_next free_block
  linked_others i h x y =
      rw
        (
          ne→== i p y,
          ne→== i pre x,
          ne→== i block2 (λ q. differ blocks block2 i f2 h (sym q)),
          ne→== i block1 (λ q. differ blocks block1 i f1 h (sym q)),
        )
        refl

  linked_p : (linked p).next ≡ 0
  unfolding link_halves set_block set_next free_block
  linked_p = rw (eq→== p p refl) refl

  linked_rest :
      (k : ℕ)
      → (k == p) ≡ false
      → (k == block2) ≡ false
      → (k == block1) ≡ false
      → (k == pre) ≡ false
      → linked k ≡ blocks k
  unfolding link_halves set_block set_next free_block
  linked_rest k x y w v = rw (x, y, w, v) refl

  open0 : ℕ → Bool
  open0 k = (blocks k).next == 0

  open1 : ℕ → Bool
  open1 k = if k == block1 then false else open0 k

  open2 : ℕ → Bool
  open2 k = if k == block2 then false else open1 k

  open3 : ℕ → Bool
  open3 k = if k == p then true else open2 k

  linked_free : 0 < block1 → 0 < block2 → (k : ℕ) → ((linked k).next == 0) ≡ open3 k
  unfolding open0 open1 open2 open3
  linked_free z1 z2 k = elim (Bool-cases (k == p)) [
    | inl x ↦ rw x (eq→== _ 0 (ap (λ v. (linked v).next) (==→eq k p x) ∙ linked_p))
    | inr x ↦ elim (Bool-cases (k == block2)) [
      | inl y ↦
          rw (x, y)
            (ne→== _ 0 (λ q.
              let t = ap (λ v. (linked v).next) (==→eq k block2 y) ∙ ap (λ v. v.next) linked2 in
              omega (arith, t, q, m)))
      | inr y ↦ elim (Bool-cases (k == block1)) [
        | inl w ↦
            rw (x, y, w)
              (ne→== _ 0 (λ q.
                let t = ap (λ v. (linked v).next) (==→eq k block1 w) ∙ ap (λ v. v.next) linked1 in
                omega (arith, t, q, z2)))
        | inr w ↦ elim (Bool-cases (k == pre)) [
          | inl v ↦
              let t = ap (λ i. (linked i).next) (==→eq k pre v) ∙ ap (λ b. b.next) linked_pre in
              let u = ap (λ i. (blocks i).next) (==→eq k pre v) in
              rw (x, y, w)
                (ne→== _ 0 (λ q. omega (arith, t, q, z1))
                  ∙ sym (ne→== _ 0 (λ q. omega (arith, u, q, n))))
          | inr v ↦ rw (x, y, w) (ap (λ b. b.next == 0) (linked_rest k x y w v))
        ]
      ]
    ]
  ]

  pub linked_count :
      block1 < buddy_blocks
      → block2 < buddy_blocks
      → p < buddy_blocks
      → 0 < block1
      → 0 < block2
      → free_count blocks ≡ suc (free_count linked)
  unfolding free_count open0 open1 open2 open3
  linked_count b1 b2 l z1 z2 =
      let a = count-drop open0 open1 buddy_blocks block1 b1 (eq→== _ 0 f1) (λ k. refl) in
      let b =
        count-drop open1 open2 buddy_blocks block2 b2 (rw (ne→== block2 block1 e) (eq→== _ 0 f2))
          (λ k. refl) in
      let c =
        count-add open2 open3 buddy_blocks p l
          (rw (np2, np1) (ne→== _ 0 (λ q. omega (arith, q, m)))) (λ k. refl) in
      let f = count-ext _ open3 buddy_blocks (λ k h. linked_free z1 z2 k) in
      omega (arith, a, b, c, f)
