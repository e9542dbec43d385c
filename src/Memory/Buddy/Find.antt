-- ===== src/Memory/Buddy/Find.antt =====
-- The block that the first loop of `Malloc` of kernel/memory/buddy.c finds.
use gos_v.Common.{
  ℕ, zero, suc, ◌+◌, ◌<◌, ◌≤◌, ◌≡◌, refl, ap, sym, ◌∙◌, subst, ◌⊎◌, inl, inr, arith, Bool, true,
  false, not, ◌&&◌, Bool-cases, ne→==, eq→==, List, [], ◌∷◌, ◌++◌, length, none, some, Outcome, ok,
  panic, hang, leb,
}
use gos_v.Memory.Buddy.{BuddyBlocks, no_block, find_block}
use gos_v.Memory.Buddy.Chain.{Segment, size_of, Cell, Chain, Trail}
use gos_v.Memory.Buddy.Orders.{view, halve, take_from}

-- A block that the first loop has found behind `pre0`.
pub record Hit (blocks : BuddyBlocks) (limit n pre0 address : ℕ) (ss : List Segment) (pre p : ℕ)
    : Type 0 where
  pub front : List Segment
  pub rest : List Segment
  pub s : Segment
  pub a : ℕ
  pub parts : ss ≡ front ++ s ∷ rest
  pub path : Trail blocks pre0 address front pre a
  pub cell : Cell blocks s (blocks pre).next a
  pub tail : Chain blocks limit (blocks s.index).next (a + size_of s) rest
  pub unused : s.used ≡ false
  pub fits : n ≤ size_of s
  pub at : p ≡ s.index
  pub taken : take_from n address (view ss) ≡ some (a, view front ++ halve n s.order (view rest))

unfoldable pub FoundBlock : BuddyBlocks → ℕ → ℕ → ℕ → ℕ → List Segment → Outcome (ℕ × ℕ) → Type 0
FoundBlock blocks limit n pre0 address ss (ok (pre, p)) =
    ((p ≡ no_block) × (take_from n address (view ss) ≡ none))
    ⊎ Hit blocks limit n pre0 address ss pre p
FoundBlock blocks limit n pre0 address ss panic = ⊥
FoundBlock blocks limit n pre0 address ss hang = ⊥

suits : ℕ → Segment → Bool
suits n s = not s.used && leb n (size_of s)

suits-true :
    (n : ℕ) (used : Bool) (size : ℕ) → (not used && leb n size) ≡ true → (used ≡ false) × (n ≤ size)
suits-true n used size h = (ground arith, ground arith)

further :
    (blocks : BuddyBlocks) (limit n pre0 address : ℕ) (s : Segment) (ss : List Segment)
    (r : Outcome (ℕ × ℕ))
    → Cell blocks s (blocks pre0).next address
    → suits n s ≡ false
    → FoundBlock blocks limit n s.index (address + size_of s) ss r
    → FoundBlock blocks limit n pre0 address (s ∷ ss) r
unfolding FoundBlock suits take_from Trail
further blocks limit n pre0 address s ss (ok (pre, p)) c e (inl (x, t)) = inl (x, rw (e, t) refl)
further blocks limit n pre0 address s ss (ok (pre, p)) c e (inr h) = inr (record {
  front = s ∷ h.front;
  rest = h.rest;
  s = h.s;
  a = h.a;
  parts = ap (λ l. s ∷ l) h.parts;
  path = (c, h.path);
  cell = h.cell;
  tail = h.tail;
  unused = h.unused;
  fits = h.fits;
  at = h.at;
  taken = rw (e, h.taken) refl;
})
further blocks limit n pre0 address s ss panic c e h = h
further blocks limit n pre0 address s ss hang c e h = h

here :
    (blocks : BuddyBlocks) (limit n pre0 address : ℕ) (s : Segment) (ss : List Segment)
    → Cell blocks s (blocks pre0).next address
    → Chain blocks limit (blocks s.index).next (address + size_of s) ss
    → suits n s ≡ true
    → Hit blocks limit n pre0 address (s ∷ ss) pre0 (blocks pre0).next
unfolding suits take_from Trail
here blocks limit n pre0 address s ss c t e =
    let (u, f) = suits-true n s.used (size_of s) e in
    record {
      front = [];
      rest = ss;
      s = s;
      a = address;
      parts = refl;
      path = (refl, refl);
      cell = c;
      tail = t;
      unused = u;
      fits = f;
      at = c.pointer;
      taken = rw e refl;
    }

pub find_block-FoundBlock :
    (blocks : BuddyBlocks) (limit n pre0 address rounds : ℕ) (ss : List Segment)
    → length ss < rounds
    → Chain blocks limit (blocks pre0).next address ss
    → FoundBlock blocks limit n pre0 address ss (find_block rounds blocks n pre0 (blocks pre0).next)
unfolding find_block Chain FoundBlock suits take_from
find_block-FoundBlock blocks limit n pre0 address zero ss l c = absurd (omega arith)
find_block-FoundBlock blocks limit n pre0 address (suc rounds) [] l (e, f) =
    rw (eq→== (blocks pre0).next no_block e) (inl (e, refl))
find_block-FoundBlock blocks limit n pre0 address (suc rounds) (s ∷ ss) l (c, t) =
    let x = ne→== (blocks pre0).next no_block (λ q. omega (arith, q, c.pointer, c.below)) in
    let g =
      ap (λ i. not (blocks i).is_used && leb n (blocks i).block_size) c.pointer
      ∙ ap (λ b. not b && leb n (blocks s.index).block_size) c.used
      ∙ ap (λ z. not s.used && leb n z) c.size in
    elim (Bool-cases (suits n s)) [
      | inl e ↦ rw (x, g ∙ e) (inr (here blocks limit n pre0 address s ss c t e))
      | inr e ↦
          rw (x, g ∙ e)
            (further blocks limit n pre0 address s ss _ c e (
              subst
                (λ q.
                  FoundBlock blocks limit n s.index (address + size_of s) ss
                    (find_block rounds blocks n q (blocks q).next))
                (sym c.pointer)
                (find_block-FoundBlock blocks limit n s.index (address + size_of s) rounds ss
                  (omega arith) t)))
    ]
