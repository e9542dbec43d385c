-- ===== src/Memory/Buddy/Orders.antt =====
-- What the heap of kernel/memory/buddy.c promises, on the blocks in the order of their addresses: the
-- power of two of each one's size, and whether it is in use. Where they stand in the array, and how
-- they are linked, is forgotten.
use gos_v.Common.{
  ℕ, zero, suc, ◌+◌, ◌*◌, ◌^◌, Bool, true, false, not, ◌&&◌, List, [], ◌∷◌, Option, none, some, leb,
  if◌then◌else◌,
}
use gos_v.Memory.Buddy.Chain.{Segment}

abbrev pub Blocks : Type 0
Blocks = List (ℕ × Bool)

abbrev pub view : List Segment → Blocks
view [] = []
view (s ∷ ss) = (s.order, s.used) ∷ view ss

-- The first part of a block that is halved as long as a half is large enough; the second halves
-- stay free behind it.
unfoldable pub halve : ℕ → ℕ → Blocks → Blocks
halve n zero rest = (0, true) ∷ rest
halve n (suc e) rest =
    let halved = halve n e ((e, false) ∷ rest) in
    if leb (2 * n) (2 ^ suc e) then halved else (suc e, true) ∷ rest

abbrev pub behind : ℕ × Bool → Option (ℕ × Blocks) → Option (ℕ × Blocks)
behind b none = none
behind b (some (address, blocks)) = some (address, b ∷ blocks)

-- The first free block that is large enough, with its address.
unfoldable pub take_from : ℕ → ℕ → Blocks → Option (ℕ × Blocks)
take_from n address [] = none
take_from n address ((e, used) ∷ rest) =
    let further = behind (e, used) (take_from n (address + 2 ^ e) rest) in
    if not used && leb n (2 ^ e) then some (address, halve n e rest) else further
