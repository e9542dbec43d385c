-- ===== src/Memory/Buddy/Malloc.antt =====
-- `Malloc` of kernel/memory/buddy.c against what the heap promises.
use gos_v.Common.{
  ℕ, suc, ◌+◌, ◌^◌, ◌<◌, ◌≤◌, ◌≡◌, refl, ap, sym, ◌∙◌, subst, ◌⊎◌, inl, inr, arith, true,
  Bool-cases, ne→==, eq→==, List, [], ◌∷◌, ◌++◌, length, length-append, none, some, Outcome, ok,
  panic, hang, ◌>>=◌, ◌==◌, leb, if◌then◌else◌,
}
use native.Mathlib.Nat.{pow-le-pow_right}
use gos_v.Utils.{Bytes, memory_set}
use gos_v.Memory.Buddy.{BuddyBlocks, buddy_blocks, no_block, split_loop, mark_used, malloc}
use gos_v.Memory.Buddy.Chain.{Segment, size_of, Chain-end}
use gos_v.Memory.Buddy.Orders.{Blocks, view, halve, take_from}
use gos_v.Memory.Buddy.Find.{FoundBlock, find_block-FoundBlock}
use gos_v.Memory.Buddy.Halving.{Fitted, Narrowed, split_loop-Narrowed}
use gos_v.Memory.Buddy.Heap.{IsHeap, marked-base, marked-count, marked-Chain}

-- What `Malloc` gives.
unfoldable pub Given : ℕ → ℕ → ℕ → List Segment → Bytes → Outcome (ℕ × BuddyBlocks × Bytes) → Type 0
Given base limit n ss memory (ok (address, blocks', memory')) =
    (ss' : List Segment) × (take_from n base (view ss) ≡ some (address, view ss'))
    × IsHeap blocks' base limit ss'
    × (memory' ≡ memory_set address 0 n memory)
Given base limit n ss memory panic = (take_from n base (view ss) ≡ none) ⊎ (992 ≤ length ss)
Given base limit n ss memory hang = ⊥

view-append : (xs ys : List Segment) → view (xs ++ ys) ≡ view xs ++ view ys
view-append [] ys = refl
view-append (x ∷ xs) ys = ap (λ l. (x.order, x.used) ∷ l) (view-append xs ys)

-- The block that the loops have left is marked and its memory cleared.
abbrev finish : ℕ → Bytes → ℕ × BuddyBlocks → Outcome (ℕ × BuddyBlocks × Bytes)
finish n memory (q, blocks) = ok (
  (blocks q).base_address,
  mark_used blocks q true,
  memory_set (blocks q).base_address 0 n memory,
)

finished :
    (base limit n : ℕ) (front : List Segment) (pre a q : ℕ) (halves : Blocks) (ss : List Segment)
    (memory : Bytes) (blocks : BuddyBlocks)
    → limit < 2 ^ 31
    → take_from n base (view ss) ≡ some (a, view front ++ halves)
    → Fitted blocks base limit n front pre a q halves
    → Given base limit n ss memory (finish n memory (q, blocks))
unfolding Given
finished base limit n front pre a q halves ss memory blocks l t f =
    let r = f.ready in
    let s' = record f.s { used = true } in
    let c = marked-count blocks base limit front f.s f.rest pre a true r.path r.cell r.tail in
    let k = length-append front (s' ∷ f.rest) in
    subst (λ q. Given base limit n ss memory (finish n memory (q, blocks))) f.at
      (
        front ++ s' ∷ f.rest,
        t
            ∙ ap some (λ i. (
              sym r.cell.base i,
              (ap (λ v. view front ++ v) (sym f.blocks) ∙ sym (view-append front (s' ∷ f.rest))) i,
            )),
        record {
          chain = marked-Chain blocks base limit front f.s f.rest pre a true r.path r.cell r.tail;
          root =
              marked-base blocks base limit front f.s f.rest pre a true r.path r.cell r.tail 0
              ∙ r.root;
          counted = omega (arith, c, k, r.counted);
          end = l;
        },
        refl,
      )

split_loop-Given :
    (base limit n : ℕ) (front : List Segment) (pre a : ℕ) (halves : Blocks) (most : ℕ)
    (ss : List Segment) (memory : Bytes) (x : Outcome (ℕ × BuddyBlocks))
    → limit < 2 ^ 31
    → take_from n base (view ss) ≡ some (a, view front ++ halves)
    → most ≤ length ss + 30
    → Narrowed base limit n front pre a halves most x
    → Given base limit n ss memory (x >>= finish n memory)
unfolding Narrowed Given
split_loop-Given base limit n front pre a halves most ss memory (ok (q, blocks)) l t m f =
    finished base limit n front pre a q halves ss memory blocks l t f
split_loop-Given base limit n front pre a halves most ss memory panic l t m f =
    inr (omega (arith, m, f))
split_loop-Given base limit n front pre a halves most ss memory hang l t m f = f

small_order : (s : Segment) → size_of s < 2 ^ 31 → s.order ≤ 30
small_order s h = elim (Bool-cases (leb 31 s.order)) [
  | inl e ↦
      let k : 2 ^ 31 ≤ 2 ^ s.order =
        pow-le-pow_right (omega arith) {i = 31} {j = s.order} (ground (arith, e)) in
      absurd (omega (arith, h, k))
  | inr e ↦ ground (arith, e)
]

found_Given :
    (base limit n : ℕ) (ss : List Segment) (memory : Bytes) (blocks : BuddyBlocks)
    (x : Outcome (ℕ × ℕ))
    → 0 < n
    → IsHeap blocks base limit ss
    → FoundBlock blocks limit n 0 base ss x
    → Given base limit n ss memory (
        x >>= (λ (pre, p).
          (if p == no_block then panic else split_loop (suc buddy_blocks) blocks n pre p)
          >>= finish n memory))
unfolding FoundBlock Given
found_Given base limit n ss memory blocks (ok (pre, p)) z h (inl (e, t)) =
    rw (eq→== p no_block e) (inl t)
found_Given base limit n ss memory blocks (ok (pre, p)) z h (inr f) =
    let c = Chain-end blocks limit _ _ f.rest f.tail in
    let k = ap length f.parts ∙ length-append f.front (f.s ∷ f.rest) in
    let o = small_order f.s (omega (arith, c, h.end)) in
    rw (ne→== p no_block (λ q. omega (arith, q, f.at, f.cell.below))) (
      split_loop-Given base limit n f.front pre f.a (halve n f.s.order (view f.rest))
        (length f.front + length f.rest + 1 + f.s.order) ss memory _ h.end f.taken
        (omega (arith, k, o))
        (subst
          (λ q.
            Narrowed base limit n f.front pre f.a (halve n f.s.order (view f.rest))
              (length f.front + length f.rest + 1 + f.s.order)
              (split_loop (suc buddy_blocks) blocks n pre q))
          (sym f.at)
          (split_loop-Narrowed base limit n f.front pre f.a z f.s.order (suc buddy_blocks) _ blocks
            f.s f.rest
            (record {
              path = f.path;
              cell = f.cell;
              tail = f.tail;
              unused = f.unused;
              root = h.root;
              counted = omega (arith, k, h.counted);
              end = omega (arith, c, h.end);
            })
            refl (omega (arith, o)) f.fits (omega arith))))
found_Given base limit n ss memory blocks panic z h f = absurd f
found_Given base limit n ss memory blocks hang z h f = f

-- `Malloc` of at least one byte in a heap below 2 ^ 31 gives out what the heap promises: the first free
-- block that is large enough, halved as long as a half is large enough, which is from then on in use,
-- with its bytes cleared; the blocks still fill the heap without a gap. It ends, and it panics only
-- when no free block is large enough or the heap has 992 blocks or more.
pub malloc-Given :
    (blocks : BuddyBlocks) (memory : Bytes) (base limit n : ℕ) (ss : List Segment)
    → IsHeap blocks base limit ss
    → 0 < n
    → Given base limit n ss memory (malloc blocks memory n)
unfolding malloc
malloc-Given blocks memory base limit n ss h z = found_Given base limit n ss memory blocks _ z h (
    find_block-FoundBlock blocks limit n 0 base (suc buddy_blocks) ss (omega (arith, h.counted))
      h.chain)
