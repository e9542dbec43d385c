-- ===== src/Memory/Buddy/Merging.antt =====
-- The loop of `mergeBuddy` of kernel/memory/buddy.c.
use gos_v.Common.{
  ℕ, zero, suc, ◌+◌, ◌-◌, ◌*◌, ◌%◌, ◌^◌, ◌<◌, ◌≤◌, ◌≡◌, refl, ap, sym, ◌∙◌, subst, inl, inr, arith,
  Bool, true, false, Bool-cases, ne→==, eq→==, List, [], ◌∷◌, ◌++◌, length, length-append, Outcome,
  ok, panic, hang,
}
use gos_v.Memory.Buddy.{BuddyBlocks, no_block, merges, merge, merge_step, merge_loop}
use gos_v.Memory.Buddy.Chain.{
  Segment, size_of, Cell, Chain, Trail, Chain-append, Chain-end, Trail-last,
}
use gos_v.Memory.Buddy.Orders.{Blocks, view}
use gos_v.Memory.Buddy.Heap.{IsHeap}
use gos_v.Memory.Buddy.Joins.{joins, Joins, done, join, Settled}
use gos_v.Memory.Buddy.Merged.{At, whole, merged-At}

append_assoc : (xs ys zs : List Segment) → (xs ++ ys) ++ zs ≡ xs ++ (ys ++ zs)
append_assoc [] ys zs = refl
append_assoc (x ∷ xs) ys zs = ap (λ l. x ∷ l) (append_assoc xs ys zs)

pub view-append : (xs ys : List Segment) → view (xs ++ ys) ≡ view xs ++ view ys
view-append [] ys = refl
view-append (x ∷ xs) ys = ap (λ l. (x.order, x.used) ∷ l) (view-append xs ys)

pub Trail-snoc :
    (blocks : BuddyBlocks) (pre0 address pre a : ℕ) (front : List Segment) (s : Segment)
    → Trail blocks pre0 address front pre a
    → Cell blocks s (blocks pre).next a
    → Trail blocks pre0 address (front ++ s ∷ []) s.index (a + size_of s)
unfolding Trail
Trail-snoc blocks pre0 address pre a [] s (e, f) c = (
  subst (λ i. Cell blocks s (blocks i).next address) (sym e)
      (subst (λ v. Cell blocks s (blocks pre).next v) (sym f) c),
  (refl, omega (arith, f)),
)
Trail-snoc blocks pre0 address pre a (x ∷ front) s (c0, p) c =
    (c0, Trail-snoc blocks x.index (address + size_of x) pre a front s p c)

-- One more block that is not to be joined.
Settled-snoc :
    (blocks : BuddyBlocks) (base pre0 address pre a : ℕ) (front : List Segment) (s t : Segment)
    → Trail blocks pre0 address front pre a
    → Settled base address (view (front ++ s ∷ []))
    → joins base a (s.order, s.used) (t.order, t.used) ≡ false
    → Settled base address (view ((front ++ s ∷ []) ++ t ∷ []))
unfolding Trail Settled
Settled-snoc blocks base pre0 address pre a [] s t (e, f) h j =
    (ap (λ v. joins base v (s.order, s.used) (t.order, t.used)) f ∙ j, tt)
Settled-snoc blocks base pre0 address pre a (x ∷ []) s t (c, p) (k, h) j =
    (k, Settled-snoc blocks base x.index (address + size_of x) pre a [] s t p h j)
Settled-snoc blocks base pre0 address pre a (x ∷ y ∷ front) s t (c, p) (k, h) j =
    (k, Settled-snoc blocks base x.index (address + size_of x) pre a (y ∷ front) s t p h j)

-- What giving back gives, from blocks of the view `v`.
unfoldable pub Merged : ℕ → ℕ → Blocks → Outcome BuddyBlocks → Type 0
Merged base limit v (ok blocks') =
    (ss' : List Segment) × IsHeap blocks' base limit ss'
    × Joins v (view ss')
    × Settled base base (view ss')
Merged base limit v panic = ⊥
Merged base limit v hang = ⊥

join_before :
    (base limit : ℕ) (front rest : Blocks) (e f : ℕ) (x : Outcome BuddyBlocks)
    → 2 ^ e ≡ 2 ^ f
    → Merged base limit (front ++ (suc e, false) ∷ rest) x
    → Merged base limit (front ++ (e, false) ∷ (f, false) ∷ rest) x
unfolding Merged
join_before base limit front rest e f (ok blocks') q (ss', h, j, z) =
    (ss', h, join front rest _ e f q j, z)
join_before base limit front rest e f panic q m = m
join_before base limit front rest e f hang q m = m

joins-true :
    (base a e f : ℕ) (u v : Bool)
    → joins base a (e, u) (f, v) ≡ true
    → (u ≡ false) × (v ≡ false) × (2 ^ e ≡ 2 ^ f)
joins-true base a e f u v h = (ground arith, ground arith, ground arith)

module _ (blocks : BuddyBlocks) (base limit : ℕ) (front : List Segment) (s : Segment)
    (rest : List Segment) (pre a : ℕ) (x : At blocks base limit front s rest pre a) where
  pub base_below : base ≤ a
  base_below = let (l, o) = Trail-last blocks 0 base pre a front x.path in l

  At-IsHeap : IsHeap blocks base limit (front ++ s ∷ rest)
  unfolding Chain
  At-IsHeap = record {
    chain = Chain-append blocks limit 0 base pre a front (s ∷ rest) x.path (x.cell, x.tail);
    root = x.root;
    counted = let k = length-append front (s ∷ rest) in omega (arith, k, x.counted);
    end = x.end;
  }

  -- The test of the loop is the test of the promise.
  merges-joins :
      (t : Segment)
      → Cell blocks t (blocks s.index).next (a + size_of s)
      → a + size_of s ≤ limit
      → merges blocks s.index t.index ≡ joins base a (s.order, s.used) (t.order, t.used)
  unfolding merges
  merges-joins t c l =
      let m : ((blocks s.index).base_address + (2 ^ 32 - (blocks 0).base_address)) % 2 ^ 32
          ≡ a - base =
        omega (arith, x.cell.base, x.root, base_below, l, x.end) in
      rw (c.used, x.cell.used, m, c.size, x.cell.size) refl

  next_At :
      (t : Segment) (more : List Segment)
      → rest ≡ t ∷ more
      → Cell blocks t (blocks s.index).next (a + size_of s)
      → Chain blocks limit (blocks t.index).next (a + size_of s + size_of t) more
      → At blocks base limit (front ++ s ∷ []) t more s.index (a + size_of s)
  next_At t more e c h = record {
    path = Trail-snoc blocks 0 base pre a front s x.path x.cell;
    cell = c;
    tail = h;
    root = x.root;
    counted =
        let k = length-append front (s ∷ []) in
        let m = ap length e in omega (arith, k, m, x.counted);
    end = x.end;
  }

-- The first block of a heap that is not empty.
first_At :
    (blocks : BuddyBlocks) (base limit : ℕ) (s : Segment) (rest : List Segment)
    → IsHeap blocks base limit (s ∷ rest)
    → At blocks base limit [] s rest 0 base
unfolding Chain Trail
first_At blocks base limit s rest h = record {
  path = (refl, refl);
  cell = h.chain.0;
  tail = h.chain.1;
  root = h.root;
  counted = omega (arith, h.counted);
  end = h.end;
}

-- Each merge makes the chain shorter, and takes at most as many rounds as it has blocks.
abbrev pub rounds_for : ℕ → ℕ → ℕ
rounds_for blocks rest = blocks * 1025 + rest

-- The loop from any block on, the blocks before it being settled.
abbrev pub Walk : ℕ → ℕ → ℕ → Type 0
Walk base limit rounds =
    (blocks : BuddyBlocks) (front : List Segment) (s : Segment) (rest : List Segment) (pre a : ℕ)
    → At blocks base limit front s rest pre a
    → Settled base base (view (front ++ s ∷ []))
    → rounds_for (length front + length rest) (length rest) < rounds
    → Merged base limit (view (front ++ s ∷ rest))
        (merge_loop rounds blocks s.index (blocks s.index).next)

pub from_first :
    (base limit rounds : ℕ) (blocks : BuddyBlocks) (ss : List Segment)
    → Walk base limit rounds
    → IsHeap blocks base limit ss
    → 0 < length ss
    → length ss * 1025 ≤ suc rounds
    → Merged base limit
        (view ss)
        (merge_loop rounds blocks (blocks 0).next (blocks (blocks 0).next).next)
unfolding Chain Settled
from_first base limit rounds blocks [] walk h z l = absurd (omega (arith, z))
from_first base limit rounds blocks (s ∷ rest) walk h z l =
    subst (λ q. Merged base limit (view (s ∷ rest)) (merge_loop rounds blocks q (blocks q).next))
      (sym h.chain.0.pointer)
      (walk blocks [] s rest 0 base (first_At blocks base limit s rest h) tt (omega (arith, l)))

walks_on :
    (base limit rounds : ℕ) (blocks : BuddyBlocks) (front : List Segment) (s t : Segment)
    (rest : List Segment) (pre a : ℕ)
    → Walk base limit rounds
    → At blocks base limit front s (t ∷ rest) pre a
    → Cell blocks t (blocks s.index).next (a + size_of s)
    → Chain blocks limit (blocks t.index).next (a + size_of s + size_of t) rest
    → Settled base base (view (front ++ s ∷ []))
    → joins base a (s.order, s.used) (t.order, t.used) ≡ false
    → rounds_for (length front + suc (length rest)) (length rest) < rounds
    → Merged base limit
        (view (front ++ s ∷ t ∷ rest))
        (merge_loop rounds blocks t.index (blocks t.index).next)
walks_on base limit rounds blocks front s t rest pre a walk x c h z j l =
    let k = length-append front (s ∷ []) in
    subst (λ v. Merged base limit (view v) (merge_loop rounds blocks t.index (blocks t.index).next))
      (append_assoc front (s ∷ []) (t ∷ rest))
      (walk blocks (front ++ s ∷ []) t rest s.index (a + size_of s)
        (next_At blocks base limit front s (t ∷ rest) pre a x t rest refl c h)
        (Settled-snoc blocks base 0 base pre a front s t x.path z j) (omega (arith, k, l)))

merges_two :
    (base limit rounds : ℕ) (blocks : BuddyBlocks) (front : List Segment) (s t : Segment)
    (rest : List Segment) (pre a : ℕ)
    → Walk base limit rounds
    → At blocks base limit front s (t ∷ rest) pre a
    → Cell blocks t (blocks s.index).next (a + size_of s)
    → Chain blocks limit (blocks t.index).next (a + size_of s + size_of t) rest
    → joins base a (s.order, s.used) (t.order, t.used) ≡ true
    → rounds_for (length front + suc (length rest)) (length rest) ≤ rounds
    → Merged base limit
        (view (front ++ s ∷ t ∷ rest))
        (let b = merge blocks s.index t.index in merge_loop rounds b (b 0).next (b (b 0).next).next)
merges_two base limit rounds blocks front s t rest pre a walk x c h j l =
    let (u, v, e) = joins-true base a s.order t.order s.used t.used j in
    let b = merge blocks s.index t.index in
    let y =
      At-IsHeap b base limit front (whole blocks base limit front s t rest pre a x c h e u) rest pre
        a (merged-At blocks base limit front s t rest pre a x c h e u) in
    let w = whole blocks base limit front s t rest pre a x c h e u in
    let k = length-append front (w ∷ rest) in
    let r =
      from_first base limit rounds b (front ++ w ∷ rest) walk y (omega (arith, k))
        (omega (arith, k, l)) in
    subst (λ i. Merged base limit i (merge_loop rounds b (b 0).next (b (b 0).next).next))
      (ap (λ p. view front ++ (s.order, p) ∷ (t.order, false) ∷ view rest) (sym u)
        ∙ ap (λ p. view front ++ (s.order, s.used) ∷ (t.order, p) ∷ view rest) (sym v)
        ∙ sym (view-append front (s ∷ t ∷ rest)))
      (join_before base limit (view front) (view rest) s.order t.order _ e (
        subst (λ i. Merged base limit i (merge_loop rounds b (b 0).next (b (b 0).next).next))
          (view-append front (w ∷ rest)) r))

pub merge_loop-Merged : (base limit rounds : ℕ) → Walk base limit rounds
unfolding merge_loop merge_step Merged Chain
merge_loop-Merged base limit zero blocks front s rest pre a x z l = absurd (omega (arith, l))
merge_loop-Merged base limit (suc rounds) blocks front s [] pre a x z l =
    rw (eq→== (blocks s.index).next no_block x.tail.0)
      (front ++ s ∷ [], At-IsHeap blocks base limit front s [] pre a x, done _, z)
merge_loop-Merged base limit (suc rounds) blocks front s (t ∷ rest) pre a x z l =
    let (c, h) = x.tail in
    let g = Chain-end blocks limit _ _ rest h in
    let m = merges-joins blocks base limit front s (t ∷ rest) pre a x t c (omega (arith, g)) in
    let n = ne→== t.index no_block (λ q. omega (arith, q, c.below)) in
    subst
      (λ q.
        Merged base limit (view (front ++ s ∷ t ∷ rest)) (merge_loop (suc rounds) blocks s.index q))
      (sym c.pointer)
      (elim (Bool-cases (joins base a (s.order, s.used) (t.order, t.used))) [
        | inl j ↦
            rw (n, m ∙ j)
              (merges_two base limit rounds blocks front s t rest pre a
                (merge_loop-Merged base limit rounds) x c h j (omega (arith, l)))
        | inr j ↦
            rw (n, m ∙ j)
              (walks_on base limit rounds blocks front s t rest pre a
                (merge_loop-Merged base limit rounds) x c h z j (omega (arith, l)))
      ])
