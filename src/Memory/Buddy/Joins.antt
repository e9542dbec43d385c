-- ===== src/Memory/Buddy/Joins.antt =====
-- What giving back promises in kernel/memory/buddy.c, on the blocks in the order of their addresses.
use gos_v.Common.{ℕ, suc, ◌+◌, ◌-◌, ◌%◌, ◌^◌, ◌≡◌, Bool, false, not, ◌&&◌, [], ◌∷◌, ◌++◌, ◌==◌}
use gos_v.Memory.Buddy.Orders.{Blocks}

-- Whether a block at an address is joined with the one behind it.
abbrev pub joins : ℕ → ℕ → ℕ × Bool → ℕ × Bool → Bool
joins base a (e, used) (f, used') =
    not used' && (not used && ((a - base) % 2 ^ f == 0 && 2 ^ e == 2 ^ f))

-- Free neighbours of the same size become one block, again and again.
pub data Joins : Blocks → Blocks → Type 0 where
  done : (x : Blocks) → Joins x x
  join :
      (front rest y : Blocks) (e f : ℕ)
      → 2 ^ e ≡ 2 ^ f
      → Joins (front ++ (suc e, false) ∷ rest) y
      → Joins (front ++ (e, false) ∷ (f, false) ∷ rest) y

-- No block is to be joined with the one behind it.
unfoldable pub Settled : ℕ → ℕ → Blocks → Type 0
Settled base a [] = Unit
Settled base a ((e, used) ∷ []) = Unit
Settled base a ((e, used) ∷ (f, used') ∷ rest) =
    (joins base a (e, used) (f, used') ≡ false) × Settled base (a + 2 ^ e) ((f, used') ∷ rest)
