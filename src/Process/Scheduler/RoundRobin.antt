-- ===== src/Process/Scheduler/RoundRobin.antt =====
-- Which process `Schedule` of kernel/process/process.c runs next, and in what state it leaves the rest.
use gos_v.Common.{
  ℕ, ◌<◌, ◌≡◌, ◌≢◌, refl, sym, ap, subst, ◌∙◌, true, false, List, [], ◌∷◌, ◌++◌, Outcome, ok, panic,
  arith, ◌==◌, if◌then◌else◌, length, ne→==, ◌⊎◌, inl, inr, Option, none, some, not, ◌&&◌, ◌>>=◌,
  Bool-cases, set,
}
use gos_v.Memory.Address.{get_address_from_ppn}
use gos_v.Ds.Queue.Invariant.{IsValid, count}
use gos_v.Ds.Queue.Refine.{contents}
use gos_v.Process.Scheduler.{
  runnable, running, user, Manager, is_zombie, is_blocked, set_status, stack_top, set_esp0,
  set_root, switch_to, requeue, bury, dispatch, schedule, is_empty, free_slot,
  add_process_to_zombie,
}
use gos_v.Process.Scheduler.Ready.{
  Ready, queue, added, fetched, add_process-ok, added-Ready, fetch_process-nil, fetch_process-cons,
  fetched-Ready, count-Ready,
}

-- What a switch from `c` to `y` leaves.
pub record Switched (s : Manager) (c y : ℕ) (s' : Manager) : Type 0 where
  pub now : s'.current ≡ y
  pub runs : (s'.pcb y).status ≡ running
  pub root :
      s.cr3 ≡ get_address_from_ppn (s.pcb s.current).root_ppn
      → s'.cr3 ≡ get_address_from_ppn (s.pcb y).root_ppn
  pub stack : (s.pcb y).type ≡ user → s'.esp0 ≡ stack_top (s.pcb y).kernel_stack_pointer
  pub logged : s'.switches ≡ (c, y) ∷ s.switches
  pub others : (q : ℕ) → q ≢ y → s'.pcb q ≡ s.pcb q
  pub dead : s'.zombies ≡ s.zombies

with_root : Manager → ℕ → Manager
unfolding set_root
with_root s y =
    if (s.pcb y).root_ppn == (s.pcb s.current).root_ppn then s else set_root s (s.pcb y).root_ppn

unfoldable pub after : Manager → ℕ → ℕ → Manager
unfolding set_esp0 with_root switch_to
after s c y = switch_to (with_root (set_esp0 (fetched s) y) y) c y

dispatch-after :
    (s : Manager) (c y : ℕ) (ys : List ℕ) → Ready s (y ∷ ys) → dispatch s c ≡ ok (after s c y)
unfolding dispatch after
dispatch-after s c y ys r = rw (fetch_process-cons s y ys r) refl

queue-after : (s : Manager) (c y : ℕ) → queue (after s c y) ≡ queue (fetched s)
unfolding after
queue-after s c y = ground arith

pub Ready-queue : (s t : Manager) (xs : List ℕ) → queue s ≡ queue t → Ready t xs → Ready s xs
Ready-queue s t xs e r = record {
  valid = subst IsValid (sym e) r.valid;
  holds = ap contents e ∙ r.holds;
}

after-Switched : (s : Manager) (c y : ℕ) → Switched s c y (after s c y)
unfolding after
after-Switched s c y = record {
  now = ground arith;
  runs = ground arith;
  root = λ e. ground arith;
  stack = λ e. ground arith;
  logged = ground arith;
  others = λ q n. ground arith;
  dead = ground arith;
}

-- A dispatch with a process in the queue.
abbrev pub Dispatches : Manager → ℕ → ℕ → List ℕ → Manager → Outcome Manager → Type 0
Dispatches s c y ys s' r = (r ≡ ok s') × Ready s' ys × Switched s c y s'

pub dispatch-Dispatches :
    (s : Manager) (c y : ℕ) (ys : List ℕ)
    → Ready s (y ∷ ys)
    → Dispatches s c y ys (after s c y) (dispatch s c)
dispatch-Dispatches s c y ys r = (
  dispatch-after s c y ys r,
  Ready-queue (after s c y) (fetched s) ys (queue-after s c y) (fetched-Ready s y ys r),
  after-Switched s c y,
)

-- What `requeue` and `bury` do with a process of each state.
requeue_live :
    (s : Manager) (xs : List ℕ)
    → Ready s xs
    → length xs < 1023
    → (s.pcb s.current).id ≢ 0
    → is_blocked (s.pcb s.current).status ≡ false
    → is_zombie (s.pcb s.current).status ≡ false
    → requeue s s.current ≡ ok (added (set_status s s.current runnable) s.current)
unfolding requeue
requeue_live s xs r l i b z =
    let q =
      add_process-ok (set_status s s.current runnable) s.current xs
        (Ready-queue (set_status s s.current runnable) s xs refl r) l in
    rw (ne→== (s.pcb s.current).id 0 i, b, z) q

pub requeue_not :
    (s : Manager)
    → (is_blocked (s.pcb s.current).status ≡ true)
      ⊎ (is_zombie (s.pcb s.current).status ≡ true)
      ⊎ ((s.pcb s.current).id ≡ 0)
    → requeue s s.current ≡ ok s
unfolding requeue
requeue_not s h = ground arith

bury_not : (s : Manager) (c : ℕ) → is_zombie (s.pcb c).status ≡ false → bury s c ≡ ok s
unfolding bury
bury_not s c z = ground arith

Switched-added :
    (t : Manager) (c y : ℕ) {s' : Manager} → Switched (added t c) c y s' → Switched t c y s'
Switched-added t c y g = record {
  now = g.now;
  runs = g.runs;
  root = g.root;
  stack = g.stack;
  logged = g.logged;
  others = g.others;
  dead = g.dead;
}

-- `Schedule` with a current process that is not idle, blocked or ended, and room in the ready queue:
-- the processes take turns. The oldest of the ready queue and the current process behind it runs next,
-- and the current process waits as the last.
pub schedule_rotates :
    (s : Manager) (xs : List ℕ) (y : ℕ) (ys : List ℕ)
    → s.current ≢ 0
    → Ready s xs
    → length xs < 1023
    → (s.pcb s.current).id ≢ 0
    → is_blocked (s.pcb s.current).status ≡ false
    → is_zombie (s.pcb s.current).status ≡ false
    → xs ++ (s.current ∷ []) ≡ y ∷ ys
    → (s' : Manager) × (schedule s ≡ ok s')
      × Ready s' ys
      × Switched (set_status s s.current runnable) s.current y s'
unfolding schedule
schedule_rotates s xs y ys n r l i b z e =
    let t = set_status s s.current runnable in
    let u = added t s.current in
    let ready : Ready u (y ∷ ys) =
      subst (Ready u) e (added-Ready t s.current xs (Ready-queue t s xs refl r) l) in
    let buried : bury u s.current ≡ ok u = bury_not u s.current (ground arith) in
    let (d, f, g) = dispatch-Dispatches u s.current y ys ready in
    (
      after u s.current y,
      rw (ne→== s.current 0 n, requeue_live s xs r l i b z, buried) d,
      f,
      Switched-added t s.current y g,
    )

dispatch_to_none : (s t : Manager) (c : ℕ) → Ready t [] → queue s ≡ queue t → dispatch s c ≡ panic
unfolding dispatch
dispatch_to_none s t c r e = rw (fetch_process-nil s (Ready-queue s t [] e r)) refl

bury_to_none : (s : Manager) (c : ℕ) → Ready s [] → (bury s c >>= (λ t. dispatch t c)) ≡ panic
unfolding bury add_process_to_zombie
bury_to_none s c r = elim (Bool-cases (not ((s.pcb c).id == 0) && is_zombie (s.pcb c).status)) [
  | inr q ↦ rw q (dispatch_to_none s s c r refl)
  | inl q ↦ rw q (table_full (free_slot s.zombies))
]
  where
    table_full :
        (x : Option ℕ)
        → ((elim x [ some i ↦ ok (record s { zombies = set s.zombies i c }) | none ↦ panic ])
            >>= (λ t. dispatch t c))
          ≡ panic
    table_full none = refl
    table_full (some i) = dispatch_to_none (record s { zombies = set s.zombies i c }) s c r refl

-- `Schedule` panics when the current process is blocked or has ended and no other is ready.
pub schedule_alone :
    (s : Manager)
    → s.current ≢ 0
    → Ready s []
    → (is_blocked (s.pcb s.current).status ≡ true) ⊎ (is_zombie (s.pcb s.current).status ≡ true)
    → schedule s ≡ panic
unfolding schedule
schedule_alone s n r (inl b) =
    rw (ne→== s.current 0 n, requeue_not s (inl b)) (bury_to_none s s.current r)
schedule_alone s n r (inr z) =
    rw (ne→== s.current 0 n, requeue_not s (inr (inl z))) (bury_to_none s s.current r)

-- Before the first process is there, `Schedule` does nothing.
pub schedule_before_first : (s : Manager) → s.current ≡ 0 → Ready s [] → schedule s ≡ ok s
unfolding schedule is_empty count
schedule_before_first s c r = ground (arith, count-Ready s [] r, r.valid.front_in)
