-- ===== src/Ds/Queue.antt =====
-- kernel/ds/queue.c: the circular queue of pointers.
pub mod Calls
pub mod Invariant
pub mod Refine
mod Tests
use gos_v.Common.{
  ℕ, ◌+◌, ◌%◌, Bool, List, [], ◌∷◌, Outcome, ok, panic, hang, ◌>>=◌, ◌==◌, if◌then◌else◌, get_or,
  set, replicate,
}
use Calls.{Pointer, null, Op, put, take_out, ask_empty, Reply, done, taken, told}

-- `struct Queue`, less the string `Type` and the function pointers, which no operation reads.
pub record Queue : Type 0 where
  pub front : ℕ
  pub rear : ℕ
  pub value : List Pointer
  pub malloc_size : ℕ

-- `Malloc` gives memory that is filled with zeros.
pub new_queue : ℕ → Queue
new_queue size = record { front = 0; rear = 0; value = replicate size null; malloc_size = size }

pub empty : Queue → Bool
empty self = self.front == self.rear

pub full : Queue → Bool
full self = (self.rear + 1) % self.malloc_size == self.front

pub push : Queue → Pointer → Outcome Queue
unfolding full
push self v =
    if full self
    then panic
    else ok (record self {
      value = set self.value self.rear v;
      rear = (self.rear + 1) % self.malloc_size;
    })

pub pop : Queue → Pointer × Queue
unfolding empty
pop self = if empty self then (null, self) else (
  get_or self.value self.front null,
  record self { front = (self.front + 1) % self.malloc_size },
)

-- The replies to the calls in order; a panic ends the run.
pub run : Queue → List Op → Outcome (List Reply)
run q [] = ok []
run q (put x ∷ ops) = elim (push q x) [
  | ok q' ↦ (do rest ← run q' ops; ok (done ∷ rest))
  | panic ↦ panic
  | hang ↦ hang
]
run q (take_out ∷ ops) = let (x, q') = pop q in do rest ← run q' ops; ok (taken x ∷ rest)
run q (ask_empty ∷ ops) = do rest ← run q ops; ok (told (empty q) ∷ rest)
