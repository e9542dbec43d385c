-- ===== src/Process/Children/Find.antt =====
-- What the search among the ready processes finds.
use gos_v.Common.{
  ℕ, zero, suc, ◌+◌, ◌-◌, ◌%◌, ◌<◌, ◌≤◌, ◌≡◌, refl, ap, ◌∙◌, List, [], ◌∷◌, ok, arith,
  if◌then◌else◌, le→ltb, lt→ltb,
}
use gos_v.Ds.Queue.Invariant.{count}
use gos_v.Ds.Queue.Refine.{window, contents}
use gos_v.Process.Scheduler.{Manager}
use gos_v.Process.Scheduler.Ready.{Ready}
use gos_v.Process.Children.{
  is_sought, find_loop, find_activated_child_process_by_pid, take_loop, take_zombie_process,
  is_child,
}

-- The first of a list that is sought, or null.
unfoldable pub first_sought : Manager → ℕ → List ℕ → ℕ
first_sought s pid [] = 0
first_sought s pid (p ∷ ps) = if is_sought s pid p then p else first_sought s pid ps

find_loop-window :
    (fuel : ℕ) (s : Manager) (pid i n : ℕ)
    → s.rear < 1024
    → i + n ≡ s.rear
    → n < fuel
    → find_loop fuel s pid i ≡ ok (first_sought s pid (window s.runnables 1024 i n))
unfolding find_loop first_sought
find_loop-window zero s pid i n h e f = absurd (omega arith)
find_loop-window (suc fuel) s pid i zero h e f = rw (le→ltb i s.rear (omega arith)) refl
find_loop-window (suc fuel) s pid i (suc n) h e f =
    let next : (i + 1) % 1024 + n ≡ s.rear = omega arith in
    rw
      (
        lt→ltb i s.rear (omega arith),
        find_loop-window fuel s pid ((i + 1) % 1024) n h next (omega arith),
      )
      (ground arith)

-- While the ready queue has not gone round the end of its array, the search finds the oldest ready
-- child that is sought, and null if there is none.
pub find_activated-first :
    (s : Manager) (pid : ℕ) (xs : List ℕ)
    → Ready s xs
    → s.front ≤ s.rear
    → find_activated_child_process_by_pid s pid ≡ ok (first_sought s pid xs)
unfolding find_activated_child_process_by_pid contents count
find_activated-first s pid xs r h =
    find_loop-window 1025 s pid s.front (s.rear - s.front) r.valid.rear_in (omega arith)
      (omega (arith, r.valid.rear_in))
    ∙ ap (λ l. ok (first_sought s pid l))
        (ap (window s.runnables 1024 s.front) (ground arith) ∙ r.holds)

-- Once the queue has gone round, the search looks at no process and finds none, whatever is ready.
pub find_activated_wrapped :
    (s : Manager) (pid : ℕ) → s.rear < s.front → find_activated_child_process_by_pid s pid ≡ ok 0
unfolding find_activated_child_process_by_pid find_loop
find_activated_wrapped s pid h = rw (le→ltb s.front s.rear (omega arith)) refl

-- The search of the ended processes finds the first that is sought.
take_loop-first :
    (s : Manager) (pid : ℕ) (ps : List ℕ) → (take_loop s pid ps).0 ≡ first_sought s pid ps
unfolding take_loop first_sought
take_loop-first s pid [] = refl
take_loop-first s pid (p ∷ ps) = ground (arith, take_loop-first s pid ps)

-- The pointer that is found is gone from the table; the others stay where they are.
unfoldable pub without : Manager → ℕ → List ℕ → List ℕ
without s pid [] = []
without s pid (p ∷ ps) = if is_sought s pid p then 0 ∷ ps else p ∷ without s pid ps

take_loop-without :
    (s : Manager) (pid : ℕ) (ps : List ℕ) → (take_loop s pid ps).1 ≡ without s pid ps
unfolding take_loop without
take_loop-without s pid [] = refl
take_loop-without s pid (p ∷ ps) = ground (arith, take_loop-without s pid ps)

pub take_zombie_lem :
    (s : Manager) (pid : ℕ)
    → take_zombie_process s pid
      ≡ (first_sought s pid s.zombies, record s { zombies = without s pid s.zombies })
unfolding take_zombie_process
take_zombie_lem s pid =
    ground (arith, take_loop-first s pid s.zombies, take_loop-without s pid s.zombies)

pub without-none :
    (s : Manager) (pid : ℕ) (ps : List ℕ) → first_sought s pid ps ≡ 0 → without s pid ps ≡ ps
unfolding first_sought without is_sought is_child
without-none s pid [] h = refl
without-none s pid (p ∷ ps) h = ground (arith, without-none s pid ps)
