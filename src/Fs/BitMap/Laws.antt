-- ===== src/Fs/BitMap/Laws.antt =====
-- What the allocation of bits by kernel/fs/fs.c gives.
use gos_v.Common.{
  ℕ, ◌+◌, ◌*◌, ◌/◌, ◌%◌, ◌<◌, ◌≡◌, refl, subst, sym, ◌∙◌, ap, inl, inr, ◌⊎◌, ◌≤◌, arith, Bool, true,
  false, ◌&&◌, Option, none, some, Outcome, ok, panic, hang, ◌==◌, if◌then◌else◌, Bool-cases, ==→eq,
}
use gos_v.Common.Bits.{has_bit, set_bit, has_bit-set_bit, has_bit-clear_bit}
use gos_v.Fs.BitMap.Find.{buffer, map-none, map-some}
use gos_v.Fs.BitMap.{Blocks, BitMap, write_byte, clear_in_map, allocate_bit, free_bit, in_use}

-- What an allocation tells: the least number whose bit was clear, and that it is set from then on and
-- no other bit changed; it panics only when every bit is set.
unfoldable pub Allocated : Blocks → BitMap → Outcome (ℕ × Blocks) → Type 0
Allocated disk map panic = (id : ℕ) → id < map.blocks * 4096 → in_use disk map id ≡ true
Allocated disk map hang = ⊥
Allocated disk map (ok (id, disk')) =
    (id < map.blocks * 4096)
    × (in_use disk map id ≡ false)
    × ((k : ℕ) → k < id → in_use disk map k ≡ true)
    × ((k : ℕ) → in_use disk' map k ≡ (if k == id then true else in_use disk map k))

-- The number of a bit, its place, and back.
number : ℕ → ℕ → ℕ → ℕ
number i j k = i * 512 * 8 + j * 8 + k

place :
    (i j k : ℕ)
    → j < 512
    → k < 8
    → (number i j k / 4096 ≡ i) × (number i j k % 4096 / 8 ≡ j) × (number i j k % 8 ≡ k)
unfolding number
place i j k h g = (omega arith, omega arith, omega arith)

number-place : (id : ℕ) → number (id / 4096) (id % 4096 / 8) (id % 8) ≡ id
unfolding number
number-place id = omega arith

in_use-number :
    (disk : Blocks) (map : BitMap) (i j k : ℕ)
    → j < 512
    → k < 8
    → in_use disk map (number i j k) ≡ has_bit (disk (map.start_block_id + i) j) k
unfolding in_use
in_use-number disk map i j k h g = let (a, b, c) = place i j k h g in rw (a, b, c) refl

has_bit-write :
    (disk : Blocks) (b j k w : ℕ) (x : Bool) (b' j' k' : ℕ)
    → ((q : ℕ) → has_bit w q ≡ (if q == k then x else has_bit (disk b j) q))
    → has_bit (write_byte disk b j w b' j') k'
      ≡ (if b' == b && (j' == j && k' == k) then x else has_bit (disk b' j') k')
has_bit-write disk b j k w x b' j' k' h = elim (Bool-cases (b' == b)) [
  | inr e ↦ rw e refl
  | inl e ↦ elim (Bool-cases (j' == j)) [
    | inr f ↦ rw (e, f) refl
    | inl f ↦
        let p = ap (λ x. disk x j) (sym (==→eq b' b e)) ∙ ap (disk b') (sym (==→eq j' j f)) in
        rw (e, f) (h k' ∙ ap (λ v. if k' == k then x else has_bit v k') p)
  ]
]

same_number :
    (s i j k id : ℕ)
    → j < 512
    → k < 8
    → (s + id / 4096 == s + i && (id % 4096 / 8 == j && id % 8 == k)) ≡ (id == number i j k)
unfolding number
same_number s i j k id h g = ground arith

written :
    (disk : Blocks) (map : BitMap) (i j k w : ℕ) (x : Bool) (id : ℕ)
    → j < 512
    → k < 8
    → ((q : ℕ) → has_bit w q ≡ (if q == k then x else has_bit (disk (map.start_block_id + i) j) q))
    → in_use (write_byte disk (map.start_block_id + i) j w) map id
      ≡ (if id == number i j k then x else in_use disk map id)
unfolding in_use
written disk map i j k w x id h g e =
    has_bit-write disk (map.start_block_id + i) j k w x (map.start_block_id + id / 4096)
      (id % 4096 / 8) (id % 8) e
    ∙ ap (λ b. if b then x else in_use disk map id) (same_number map.start_block_id i j k id h g)

allocated : Blocks → BitMap → Option (ℕ × (ℕ × ℕ)) → Outcome (ℕ × Blocks)
allocated disk map none = panic
allocated disk map (some (i, (j, k))) = ok (
  i * 512 * 8 + j * 8 + k,
  write_byte disk (map.start_block_id + i) j (set_bit (disk (map.start_block_id + i) j) k),
)

allocate_bit-allocated :
    (disk : Blocks) (map : BitMap)
    → allocate_bit disk map ≡ allocated disk map (clear_in_map disk map)
unfolding allocate_bit allocated
allocate_bit-allocated disk map = refl

allocated-Allocated :
    (disk : Blocks) (map : BitMap) (r : Option (ℕ × (ℕ × ℕ)))
    → clear_in_map disk map ≡ r
    → Allocated disk map (allocated disk map r)
unfolding Allocated allocated in_use number buffer
allocated-Allocated disk map none h = λ id l.
    map-none disk map h (id / 4096) (id % 4096 / 8) (id % 8) (omega arith) (omega arith)
      (omega arith)
allocated-Allocated disk map (some (i, (j, k))) h =
    let (l, m, n, e, f) = map-some disk map i j k h in
    (
      omega arith,
      in_use-number disk map i j k m n ∙ e,
      λ id g. f (id / 4096) (id % 4096 / 8) (id % 8) (omega arith) (omega arith) (omega arith),
      λ id.
          written disk map i j k _ true id m n
            (has_bit-set_bit (disk (map.start_block_id + i) j) k),
    )

-- The allocation of a bit gives the least number whose bit was clear, sets that bit and changes no
-- other, and panics only when every bit of the map is set.
pub allocate_bit-Allocated :
    (disk : Blocks) (map : BitMap) → Allocated disk map (allocate_bit disk map)
allocate_bit-Allocated disk map =
    subst (Allocated disk map) (sym (allocate_bit-allocated disk map))
      (allocated-Allocated disk map (clear_in_map disk map) refl)

disk_after : Blocks → Outcome (ℕ × Blocks) → Blocks
disk_after disk (ok (id, disk')) = disk'
disk_after disk panic = disk
disk_after disk hang = disk

allocated-elsewhere :
    (disk : Blocks) (map : BitMap) (r : Option (ℕ × (ℕ × ℕ))) (b k : ℕ)
    → clear_in_map disk map ≡ r
    → (b < map.start_block_id) ⊎ (map.start_block_id + map.blocks ≤ b)
    → disk_after disk (allocated disk map r) b k ≡ disk b k
unfolding allocated disk_after
allocated-elsewhere disk map none b k h o = refl
allocated-elsewhere disk map (some (i, (j, q))) b k h o =
    let (l, m, n, f, g) = map-some disk map i j q h in ground arith

-- An allocation writes within the map.
pub allocate_bit-elsewhere :
    (disk disk' : Blocks) (map : BitMap) (id b k : ℕ)
    → allocate_bit disk map ≡ ok (id, disk')
    → (b < map.start_block_id) ⊎ (map.start_block_id + map.blocks ≤ b)
    → disk' b k ≡ disk b k
unfolding disk_after
allocate_bit-elsewhere disk disk' map id b k e o =
    ap (λ r. disk_after disk r b k) (sym e ∙ allocate_bit-allocated disk map)
    ∙ allocated-elsewhere disk map (clear_in_map disk map) b k refl o

-- Giving a bit back clears it and changes no other.
pub in_use-free_bit :
    (disk : Blocks) (map : BitMap) (id k : ℕ)
    → in_use (free_bit disk map id) map k ≡ (if k == id then false else in_use disk map k)
unfolding free_bit
in_use-free_bit disk map id k =
    written disk map (id / 4096) (id % 4096 / 8) (id % 8) _ false k (omega arith) (omega arith)
      (has_bit-clear_bit (disk (map.start_block_id + id / 4096) (id % 4096 / 8)) (id % 8))
    ∙ ap (λ n. if k == n then false else in_use disk map k) (number-place id)

restored :
    (disk disk' : Blocks) (map : BitMap) (id k : ℕ)
    → Allocated disk map (ok (id, disk'))
    → in_use (free_bit disk' map id) map k ≡ in_use disk map k
unfolding Allocated
restored disk disk' map id k (a, b, c, d) =
    rw (in_use-free_bit disk' map id k, d k)
      (elim (Bool-cases (k == id)) [
        | inl e ↦ rw e (sym (ap (in_use disk map) (==→eq k id e) ∙ b))
        | inr e ↦ rw e refl
      ])
