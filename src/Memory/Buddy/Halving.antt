-- ===== src/Memory/Buddy/Halving.antt =====
-- The second loop of `Malloc` of kernel/memory/buddy.c, which halves the block.
use gos_v.Common.{
  ℕ, zero, suc, ◌+◌, ◌*◌, ◌%◌, ◌^◌, ◌<◌, ◌≤◌, ◌≡◌, refl, ap, ◌∙◌, subst, inl, inr, arith, true,
  false, Bool-cases, List, ◌∷◌, length, Outcome, ok, panic, hang, ◌>>=◌, leb,
}
use native.Mathlib.Omega.{pow_step}
use gos_v.Memory.Buddy.{BuddyBlocks, split_loop}
use gos_v.Memory.Buddy.Chain.{Segment, size_of}
use gos_v.Memory.Buddy.Split.{Halved, split_block-Split}
use gos_v.Memory.Buddy.Orders.{Blocks, view, halve}
use gos_v.Memory.Buddy.Ready.{
  Ready, pre-next, s-next, root-next, other, first, second, halved-Ready,
}

leb→le : (a b : ℕ) → leb a b ≡ true → a ≤ b
leb→le a b h = ground arith

half_fits : (n e : ℕ) (s : Segment) → s.order ≡ e → 2 * n ≤ 2 ^ suc e → n ≤ size_of s
half_fits n e s o h =
    let z : size_of s ≡ 2 ^ e = ap (λ k. 2 ^ k) o in let p = pow_step 2 e in omega (arith, z, p, h)

-- What the loop gives.
pub record Fitted (blocks' : BuddyBlocks) (base limit n : ℕ) (front : List Segment) (pre a q : ℕ)
    (halves : Blocks) : Type 0 where
  pub s : Segment
  pub rest : List Segment
  pub ready : Ready blocks' base limit front s rest pre a
  pub at : s.index ≡ q
  pub fits : n ≤ size_of s
  pub tight : size_of s < 2 * n
  pub blocks : (s.order, true) ∷ view rest ≡ halves

unfoldable pub Narrowed :
    ℕ → ℕ → ℕ → List Segment → ℕ → ℕ → Blocks → ℕ → Outcome (ℕ × BuddyBlocks) → Type 0
Narrowed base limit n front pre a halves most (ok (q, blocks')) =
    Fitted blocks' base limit n front pre a q halves
Narrowed base limit n front pre a halves most panic = 1022 ≤ most
Narrowed base limit n front pre a halves most hang = ⊥

module _ (base limit n : ℕ) (front : List Segment) (pre a : ℕ) (some_bytes : 0 < n) where
  stops :
      (blocks : BuddyBlocks) (s : Segment) (rest : List Segment) (halves : Blocks) (most : ℕ)
      → Ready blocks base limit front s rest pre a
      → n ≤ size_of s
      → leb (2 * n % 2 ^ 32) (blocks s.index).block_size ≡ false
      → (s.order, true) ∷ view rest ≡ halves
      → Narrowed base limit n front pre a halves most (ok (s.index, blocks))
  unfolding Narrowed
  stops blocks s rest halves most r f l e = record {
    s = s;
    rest = rest;
    ready = r;
    at = refl;
    fits = f;
    tight = ground (arith, l, r.cell.size, r.end, f);
    blocks = e;
  }

  goes_on :
      (blocks : BuddyBlocks) (s : Segment) (rest : List Segment) (e rounds most : ℕ)
      (halves : Blocks) (x : Outcome (ℕ × BuddyBlocks))
      → Ready blocks base limit front s rest pre a
      → s.order ≡ suc e
      → length front + length rest + 2 + e ≤ most
      → Halved blocks pre s.index x
      → ((blocks' : BuddyBlocks) (s' : Segment) (rest' : List Segment)
          → s'.order ≡ e
          → length front + length rest' + 1 + e ≤ most
          → (view rest' ≡ (e, false) ∷ view rest)
          → Ready blocks' base limit front s' rest' pre a
          → Narrowed base limit n front pre a halves most
              (split_loop rounds blocks' n pre s'.index))
      → Narrowed base limit n front pre a halves most (x >>= (λ r. split_loop rounds r.1 n pre r.0))
  unfolding Narrowed Halved
  goes_on blocks s rest e rounds most halves (ok (block1, blocks')) r o m t ih =
      ih blocks' (first blocks base limit front s rest pre a e r o blocks' block1 t)
        (second blocks base limit front s rest pre a e r o blocks' block1 t ∷ rest) refl
        (omega (arith, m)) refl
        (halved-Ready blocks base limit front s rest pre a e r o blocks' block1 t)
  goes_on blocks s rest e rounds most halves panic r o m t ih = omega (arith, m, t, r.counted)
  goes_on blocks s rest e rounds most halves hang r o m t ih = t

  pub split_loop-Narrowed :
      (e rounds most : ℕ) (blocks : BuddyBlocks) (s : Segment) (rest : List Segment)
      → Ready blocks base limit front s rest pre a
      → s.order ≡ e
      → e < rounds
      → n ≤ size_of s
      → length front + length rest + 1 + e ≤ most
      → Narrowed base limit n front pre a
          (halve n e (view rest))
          most
          (split_loop rounds blocks n pre s.index)
  unfolding split_loop halve
  split_loop-Narrowed e zero most blocks s rest r o l f m = absurd (omega (arith, l))
  split_loop-Narrowed zero (suc rounds) most blocks s rest r o l f m =
      let z : size_of s ≡ 1 = ap (λ k. 2 ^ k) o in
      let x : leb (2 * n % 2 ^ 32) (blocks s.index).block_size ≡ false =
        ground (arith, z, r.cell.size, f, some_bytes) in
      rw x (stops blocks s rest _ most r f x (ap (λ k. (k, true) ∷ view rest) o))
  split_loop-Narrowed (suc e) (suc rounds) most blocks s rest r o l f m =
      let z : size_of s ≡ 2 ^ suc e = ap (λ k. 2 ^ k) o in
      let w : leb (2 * n % 2 ^ 32) (blocks s.index).block_size ≡ leb (2 * n) (2 ^ suc e) =
        let w1 : 2 * n % 2 ^ 32 ≡ 2 * n = omega (arith, f, r.end) in
        ap (λ v. leb v (blocks s.index).block_size) w1
        ∙ ap (λ v. leb (2 * n) v) (r.cell.size ∙ z) in
      elim (Bool-cases (leb (2 * n) (2 ^ suc e))) [
        | inl x ↦
            rw (w, x)
              (goes_on blocks s rest e rounds most _ _ r o (omega (arith, m))
                (split_block-Split blocks pre s.index
                  (pre-next blocks base limit front s rest pre a e r o)
                  (s-next blocks base limit front s rest pre a e r o)
                  (root-next blocks base limit front s rest pre a e r o) r.cell.below
                  (other blocks base limit front s rest pre a e r o))
                (λ blocks' s' rest' o' m' v r'.
                  subst
                    (λ h.
                      Narrowed base limit n front pre a (halve n e h) most
                        (split_loop rounds blocks' n pre s'.index))
                    v
                    (split_loop-Narrowed e rounds most blocks' s' rest' r' o' (omega (arith, l))
                      (half_fits n e s' o' (leb→le (2 * n) (2 ^ suc e) x)) m')))
        | inr x ↦
            rw (w, x) (stops blocks s rest _ most r f (w ∙ x) (ap (λ k. (k, true) ∷ view rest) o))
      ]
