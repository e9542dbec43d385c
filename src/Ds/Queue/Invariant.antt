-- ===== src/Ds/Queue/Invariant.antt =====
-- The representation invariant of the circular queue.
use gos_v.Common.{
  ℕ, ◌+◌, ◌-◌, ◌%◌, ◌^◌, ◌<◌, ◌≡◌, ok, arith, inl, inr, ap, Bool-cases, ==→eq, ==→ne, ◌==◌, leb,
  if◌then◌else◌, length, length-set, length-replicate,
}
use native.Mathlib.Nat.{mod-eq_of_lt, mod_self}
use gos_v.Ds.Queue.Calls.{Pointer, null}
use gos_v.Ds.Queue.{Queue, new_queue, push, pop}

-- The indices are in the array, and `Rear + 1` fits an `i32`.
pub record IsValid (q : Queue) : Type 0 where
  pub storage : length q.value ≡ q.malloc_size
  pub front_in : q.front < q.malloc_size
  pub rear_in : q.rear < q.malloc_size
  pub small : q.malloc_size < 2 ^ 31

-- One step round the array.
pub next_lem : (i n : ℕ) → i < n → (i + 1) % n ≡ (if i + 1 == n then 0 else i + 1)
next_lem i n h = elim (Bool-cases (i + 1 == n)) [
  | inl e ↦ rw e (omega (arith, ==→eq (i + 1) n e, mod_self n, ap (λ k. k % n) (==→eq (i + 1) n e)))
  | inr e ↦ rw e (mod-eq_of_lt (omega (arith, ==→ne (i + 1) n e)))
]

-- How many pointers are queued.
unfoldable pub count : Queue → ℕ
count q = if leb q.front q.rear then q.rear - q.front else q.rear + q.malloc_size - q.front

-- `NewQueue` of a positive size is a valid queue that is empty.
pub new_queue-IsValid :
    (size : ℕ) → 0 < size → size < 2 ^ 31 → IsValid (new_queue size) × (count (new_queue size) ≡ 0)
unfolding new_queue count
new_queue-IsValid size h k = ground (arith, length-replicate size null)

pub push-IsValid :
    (q : Queue) (x : Pointer) {q' : Queue} → IsValid q → push q x ≡ ok q' → IsValid q'
unfolding push
push-IsValid q x v e =
    ground (arith, length-set q.value q.rear x, next_lem q.rear q.malloc_size v.rear_in)

pub pop-IsValid : (q : Queue) → IsValid q → IsValid (pop q).1
unfolding pop
pop-IsValid q v = ground (arith, next_lem q.front q.malloc_size v.front_in)
