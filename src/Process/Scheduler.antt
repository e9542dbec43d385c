-- ===== src/Process/Scheduler.antt =====
-- The process manager and the scheduler of kernel/process/process.c.
-- A `PCB*` is a number, 0 for null; what the pointers lead to is part of the state. `SwitchProcess`
-- is assembly: the model records its calls.
pub mod Ready
pub mod RoundRobin
pub mod Zombie
use gos_v.Common.{
  ℕ, zero, suc, ◌+◌, ◌-◌, ◌*◌, ◌/◌, ◌%◌, ◌^◌, Bool, true, false, not, ◌&&◌, List, [], ◌∷◌, Option,
  none, some, Outcome, ok, panic, hang, ◌>>=◌, ◌==◌, ltb, if◌then◌else◌, get_or, set, replicate,
}
use gos_v.Common.Bitmap.{shift}
use gos_v.Memory.Address.{page_size, get_address_from_ppn}
use gos_v.Process.Pid.{max_process_count}

pub data ProcessState : Type 0 where
  runnable running blocked zombie : ProcessState

pub data ProcessType : Type 0 where
  user kernel : ProcessType

-- `struct PCB`
pub record Pcb : Type 0 where
  pub kernel_stack_pointer : ℕ
  pub id : ℕ
  pub parent_id : ℕ
  pub status : ProcessState
  pub type : ProcessType
  pub root_ppn : ℕ
  pub exit_code : ℕ

-- `struct ProcessManager`, with the memory of the PCBs, the registers that `Schedule` writes and the
-- calls of `SwitchProcess`, last first.
pub record Manager : Type 0 where
  pub pcb : ℕ → Pcb
  pub current : ℕ
  pub runnables : List ℕ
  pub front : ℕ
  pub rear : ℕ
  pub zombies : List ℕ
  pub esp0 : ℕ
  pub cr3 : ℕ
  pub switches : List (ℕ × ℕ)

abbrev pub write_pcb : (ℕ → Pcb) → ℕ → Pcb → ℕ → Pcb
write_pcb m p v q = if q == p then v else m q

abbrev pub is_zombie : ProcessState → Bool
is_zombie zombie = true
is_zombie _ = false

abbrev pub is_blocked : ProcessState → Bool
is_blocked blocked = true
is_blocked _ = false

abbrev pub is_user : ProcessType → Bool
is_user user = true
is_user kernel = false

abbrev pub set_status : Manager → ℕ → ProcessState → Manager
set_status s p st = record s { pcb = write_pcb s.pcb p (record (s.pcb p) { status = st }) }

pub is_empty : Manager → Bool
is_empty s = s.front == s.rear

pub add_process : Manager → ℕ → Outcome Manager
add_process s process =
    if (s.rear + 1) % max_process_count == s.front
    then panic
    else ok (record s {
      runnables = set s.runnables s.rear process;
      rear = (s.rear + 1) % max_process_count;
    })

-- The index of the first null pointer.
unfoldable pub free_slot : List ℕ → Option ℕ
free_slot [] = none
free_slot (p ∷ ps) = if p == 0 then some 0 else shift 1 (free_slot ps)

pub add_process_to_zombie : Manager → ℕ → Outcome Manager
unfolding free_slot
add_process_to_zombie s process = elim (free_slot s.zombies) [
  | some i ↦ ok (record s { zombies = set s.zombies i process })
  | none ↦ panic
]

pub fetch_process : Manager → Outcome (ℕ × Manager)
unfolding is_empty
fetch_process s =
    if is_empty s
    then panic
    else ok (
      get_or s.runnables s.front 0,
      record s { runnables = set s.runnables s.front 0; front = (s.front + 1) % max_process_count },
    )

-- The top of the kernel stack, the end of the page that the pointer is in.
abbrev pub stack_top : ℕ → ℕ
stack_top p = (p + page_size - 1) % 2 ^ 32 / page_size * page_size

-- `if (next->Type == PROCESS_TYPE_USER) SetTSSEsp0(…)`
pub set_esp0 : Manager → ℕ → Manager
set_esp0 s next =
    if is_user (s.pcb next).type
    then record s { esp0 = stack_top (s.pcb next).kernel_stack_pointer }
    else s

-- `SetRootPageTableAddr` of a page number: its assertion holds of every such address.
pub set_root : Manager → ℕ → Manager
set_root s ppn = record s { cr3 = get_address_from_ppn ppn }

-- `old` is the process that is switched away from, null for the unused PCB of the first switch.
pub switch_to : Manager → ℕ → ℕ → Manager
switch_to s old next = record (set_status s next running) {
  current = next;
  switches = (old, next) ∷ s.switches;
}

pub run_first_process : Manager → Outcome Manager
unfolding fetch_process set_esp0 set_root switch_to
run_first_process s = do
  (next, s) ← fetch_process s
  let s = set_esp0 s next
  let s = set_root s (s.pcb next).root_ppn
  ok (switch_to s 0 next)

-- The current process goes back into the ready queue, unless it is idle, blocked or dead.
pub requeue : Manager → ℕ → Outcome Manager
unfolding add_process
requeue s current =
    let c = s.pcb current in
    if not (c.id == 0) && (not (is_blocked c.status) && not (is_zombie c.status))
    then add_process (set_status s current runnable) current
    else ok s

pub bury : Manager → ℕ → Outcome Manager
unfolding add_process_to_zombie
bury s current =
    let c = s.pcb current in
    if not (c.id == 0) && is_zombie c.status then add_process_to_zombie s current else ok s

pub dispatch : Manager → ℕ → Outcome Manager
unfolding fetch_process set_esp0 set_root switch_to
dispatch s current = do
  (next, s) ← fetch_process s
  let s = set_esp0 s next
  let s =
      if (s.pcb next).root_ppn == (s.pcb s.current).root_ppn
      then s
      else set_root s (s.pcb next).root_ppn
  ok (switch_to s current next)

pub schedule : Manager → Outcome Manager
unfolding is_empty run_first_process requeue bury dispatch
schedule s =
    if s.current == 0
    then (if is_empty s then ok s else run_first_process s)
    else (do s1 ← requeue s s.current; s2 ← bury s1 s.current; dispatch s2 s.current)
