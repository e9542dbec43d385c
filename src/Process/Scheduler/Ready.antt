-- ===== src/Process/Scheduler/Ready.antt =====
-- The ready queue of kernel/process/process.c as a list of processes, oldest first.
use gos_v.Common.{
  ℕ, ◌+◌, ◌%◌, ◌<◌, ◌≡◌, sym, ap, ◌∙◌, List, [], ◌∷◌, ◌++◌, ok, panic, arith, length, set,
  length-set,
}
use gos_v.Ds.Queue.{Queue}
use gos_v.Ds.Queue.Invariant.{IsValid, count, next_lem}
use gos_v.Ds.Queue.Refine.{contents, length-window, window-set, window-pred, window-set_outside}
use gos_v.Process.Pid.{max_process_count}
use gos_v.Process.Scheduler.{Manager, is_empty, add_process, fetch_process}

-- The fields of the ready queue, in the shape of the queue of kernel/ds/queue.c.
abbrev pub queue : Manager → Queue
queue s = record {
  front = s.front;
  rear = s.rear;
  value = s.runnables;
  malloc_size = max_process_count;
}

-- The ready queue is in order, and holds these processes.
pub record Ready (s : Manager) (xs : List ℕ) : Type 0 where
  pub valid : IsValid (queue s)
  pub holds : contents (queue s) ≡ xs

pub count-Ready : (s : Manager) (xs : List ℕ) → Ready s xs → count (queue s) ≡ length xs
unfolding contents
count-Ready s xs r =
    sym (length-window s.runnables 1024 s.front (count (queue s))) ∙ ap length r.holds

pub add_process-full :
    (s : Manager) (p : ℕ) (xs : List ℕ) → Ready s xs → length xs ≡ 1023 → add_process s p ≡ panic
unfolding add_process count
add_process-full s p xs r l =
    ground (arith, count-Ready s xs r, next_lem s.rear 1024 r.valid.rear_in)

abbrev pub added : Manager → ℕ → Manager
added s p = record s {
  runnables = set s.runnables s.rear p;
  rear = (s.rear + 1) % max_process_count;
}

abbrev pub fetched : Manager → Manager
fetched s = record s {
  runnables = set s.runnables s.front 0;
  front = (s.front + 1) % max_process_count;
}

-- `AddProcess` puts the process behind the others.
pub add_process-ok :
    (s : Manager) (p : ℕ) (xs : List ℕ)
    → Ready s xs
    → length xs < 1023
    → add_process s p ≡ ok (added s p)
unfolding add_process count
add_process-ok s p xs r l = ground (arith, count-Ready s xs r, next_lem s.rear 1024 r.valid.rear_in)

pub added-Ready :
    (s : Manager) (p : ℕ) (xs : List ℕ)
    → Ready s xs
    → length xs < 1023
    → Ready (added s p) (xs ++ (p ∷ []))
unfolding contents count
added-Ready s p xs r l = record {
  valid = ground (arith, length-set s.runnables s.rear p, next_lem s.rear 1024 r.valid.rear_in);
  holds = ground (
    arith,
    count-Ready s xs r,
    r.holds,
    next_lem s.rear 1024 r.valid.rear_in,
    window-set s.runnables 1024 p s.front (count (queue s)) s.rear,
  );
}

-- `fetchProcess` panics on an empty queue, and else takes the oldest process.
pub fetch_process-nil : (s : Manager) → Ready s [] → fetch_process s ≡ panic
unfolding fetch_process is_empty count
fetch_process-nil s r = ground (arith, count-Ready s [] r, r.valid.front_in)

pub fetch_process-cons :
    (s : Manager) (x : ℕ) (xs : List ℕ) → Ready s (x ∷ xs) → fetch_process s ≡ ok (x, fetched s)
unfolding fetch_process is_empty contents count
fetch_process-cons s x xs r = ground (
  arith,
  count-Ready s (x ∷ xs) r,
  r.holds,
  window-pred s.runnables 1024 s.front (count (queue s)),
)

pub fetched-Ready : (s : Manager) (x : ℕ) (xs : List ℕ) → Ready s (x ∷ xs) → Ready (fetched s) xs
unfolding contents count
fetched-Ready s x xs r = record {
  valid = ground (arith, length-set s.runnables s.front 0, next_lem s.front 1024 r.valid.front_in);
  holds = ground (
    arith,
    count-Ready s (x ∷ xs) r,
    r.holds,
    next_lem s.front 1024 r.valid.front_in,
    window-pred s.runnables 1024 s.front (count (queue s)),
    window-set_outside s.runnables 1024 ((s.front + 1) % 1024) (length xs) s.front 0,
  );
}
