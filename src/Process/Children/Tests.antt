-- ===== src/Process/Children/Tests.antt =====
-- The theorems on children and on the scheduler at a small system.
use gos_v.Common.{
  ℕ, ◌+◌, ◌*◌, ◌≡◌, refl, some, List, [], ◌∷◌, ok, panic, arith, replicate, set, ◌==◌,
  if◌then◌else◌, inl,
}
use gos_v.Ds.Queue.Invariant.{count}
use gos_v.Ds.Queue.Refine.{contents}
use gos_v.Process.Scheduler.{
  ProcessState, runnable, running, blocked, zombie, user, Pcb, Manager, schedule, set_status,
}
use gos_v.Process.Scheduler.Ready.{Ready}
use gos_v.Process.Scheduler.RoundRobin.{Switched, schedule_rotates, schedule_alone}
use gos_v.Process.Scheduler.Zombie.{schedule_buries}
use gos_v.Process.Children.{wait_process, find_activated_child_process_by_pid, is_sought}
use gos_v.Process.Children.Find.{first_sought, find_activated-first, without}
use gos_v.Process.Children.Wait.{wait_zombie}

abbrev process : ℕ → ℕ → ProcessState → Pcb
process i parent st = record {
  kernel_stack_pointer = 0x2FFC;
  id = i;
  parent_id = parent;
  status = st;
  type = user;
  root_ppn = 300 + i;
  exit_code = 7;
}

-- PCB 10 is process 1, which runs; 20 and 30 are its children 2 and 3, ready and ended.
abbrev pcbs : ProcessState → ℕ → Pcb
pcbs st p =
    if p == 10 then process 1 0 st else if p == 20 then process 2 1 runnable else process 3 1 zombie

abbrev system : ProcessState → ℕ → ℕ → List ℕ → List ℕ → Manager
system st front rear ready dead = record {
  pcb = pcbs st;
  current = 10;
  runnables = ready;
  front = front;
  rear = rear;
  zombies = dead;
  esp0 = 0;
  cr3 = 301 * 4096;
  switches = [];
}

abbrev slots : List ℕ
slots = set (replicate 1024 0) 5 20

abbrev one_ready : ProcessState → Manager
one_ready st = system st 5 6 slots (0 ∷ 30 ∷ [])

one_ready-Ready : (st : ProcessState) → Ready (one_ready st) (20 ∷ [])
unfolding contents count
one_ready-Ready st = record {
  valid = record {
    storage = refl;
    front_in = omega arith;
    rear_in = omega arith;
    small = omega arith;
  };
  holds = refl;
}

lone-Ready : (st : ProcessState) → Ready (system st 5 5 slots []) []
unfolding contents count
lone-Ready st = record {
  valid = record {
    storage = refl;
    front_in = omega arith;
    rear_in = omega arith;
    small = omega arith;
  };
  holds = refl;
}

schedule_rotates_example :
    (s' : Manager) × (schedule (one_ready running) ≡ ok s')
    × Ready s' (10 ∷ [])
    × Switched (set_status (one_ready running) 10 runnable) 10 20 s'
schedule_rotates_example =
    schedule_rotates (one_ready running) (20 ∷ []) 20 (10 ∷ []) (omega arith)
      (one_ready-Ready running) (omega arith) (omega arith) refl refl refl

schedule_alone_example : schedule (system blocked 5 5 slots []) ≡ panic
schedule_alone_example =
    schedule_alone (system blocked 5 5 slots []) (omega arith) (lone-Ready blocked) (inl refl)

find_activated-first_example : find_activated_child_process_by_pid (one_ready running) 2 ≡ ok 20
unfolding first_sought is_sought
find_activated-first_example =
    find_activated-first (one_ready running) 2 (20 ∷ []) (one_ready-Ready running) (omega arith)

wait_zombie_example :
    wait_process (one_ready running) 3
    ≡ ok (
      record { returned = 3; exit_code = some 7; freed = some 30 },
      system running 5 6 slots (0 ∷ 0 ∷ []),
    )
unfolding first_sought is_sought without
wait_zombie_example =
    wait_zombie (one_ready running) 3 (20 ∷ []) (one_ready-Ready running) (omega arith)

schedule_buries_example :
    (s' : Manager) × (schedule (one_ready zombie) ≡ ok s')
    × Ready s' []
    × Switched (system zombie 5 6 slots (10 ∷ 30 ∷ [])) 10 20 s'
schedule_buries_example =
    schedule_buries (one_ready zombie) 0 20 [] (omega arith) (one_ready-Ready zombie) (omega arith)
      refl (omega arith) refl (λ j l. absurd (omega (arith, l)))
