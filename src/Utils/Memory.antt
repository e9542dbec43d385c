-- ===== src/Utils/Memory.antt =====
-- What the block operations of kernel/common/utils.c leave in memory.
use gos_v.Common.{ℕ, zero, suc, ◌+◌, ◌-◌, ◌≤◌, ◌≡◌, refl, ◌⊎◌, arith, ◌&&◌, leb, ltb, if◌then◌else◌}
use gos_v.Utils.{Bytes, store, memory_copy, memory_set, memory_free}

-- `MemoryCopy` copies the block as it was, also to a place that overlaps it from below, and writes
-- nowhere else.
pub memory_copy_lem :
    (dest src size : ℕ) (m : Bytes) (a : ℕ)
    → (dest ≤ src) ⊎ (src + size ≤ dest)
    → memory_copy dest src size m a
      ≡ (if leb dest a && ltb a (dest + size) then m (src + (a - dest)) else m a)
unfolding memory_copy
memory_copy_lem dest src zero m a h = ground arith
memory_copy_lem dest src (suc n) m a h =
    ground (arith, memory_copy_lem (dest + 1) (src + 1) n (store m dest (m src)) a)

-- `MemorySet` fills the block and writes nowhere else.
pub memory_set_lem :
    (ptr v size : ℕ) (m : Bytes) (a : ℕ)
    → memory_set ptr v size m a ≡ (if leb ptr a && ltb a (ptr + size) then v else m a)
unfolding memory_set
memory_set_lem ptr v zero m a = ground arith
memory_set_lem ptr v (suc n) m a = ground (arith, memory_set_lem (ptr + 1) v n (store m ptr v) a)

-- `MemoryFree` is `MemorySet` with zero.
pub memory_free-memory_set :
    (ptr size : ℕ) (m : Bytes) → memory_free ptr size m ≡ memory_set ptr 0 size m
unfolding memory_free memory_set
memory_free-memory_set ptr zero m = refl
memory_free-memory_set ptr (suc n) m = memory_free-memory_set (ptr + 1) n (store m ptr 0)
