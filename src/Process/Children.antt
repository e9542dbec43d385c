-- ===== src/Process/Children.antt =====
-- The functions of kernel/process/process.c and kernel/process/create.c on a process's children.
pub mod Find
pub mod Wait
mod Tests
use gos_v.Common.{
  ℕ, zero, suc, ◌+◌, ◌-◌, ◌%◌, ◌^◌, Bool, true, false, not, ◌&&◌, ◌||◌, List, [], ◌∷◌, Option, none,
  some, Outcome, ok, panic, hang, ◌>>=◌, ◌==◌, ltb, if◌then◌else◌, get_or, set,
}
use gos_v.Process.Pid.{max_process_count}
use gos_v.Process.Scheduler.{Pcb, Manager, write_pcb}

-- `process && process->ParentID == current->ID`
unfoldable pub is_child : Manager → ℕ → Bool
is_child s p = not (p == 0) && ((s.pcb p).parent_id == (s.pcb s.current).id)

-- The test of the two searches; `pid == -1` stands for any child.
unfoldable pub is_sought : Manager → ℕ → ℕ → Bool
unfolding is_child
is_sought s pid p = is_child s p && (((s.pcb p).id == pid) || (pid == 2 ^ 32 - 1))

-- `for (i; i < Rear; i = (i + 1) % MAX_PROCESS_COUNT)`
find_loop : ℕ → Manager → ℕ → ℕ → Outcome ℕ
find_loop zero s pid i = hang
find_loop (suc fuel) s pid i =
    let rest = find_loop fuel s pid ((i + 1) % max_process_count) in
    let process = get_or s.runnables i 0 in
    if ltb i s.rear then (if is_sought s pid process then ok process else rest) else ok 0

-- `MAX_PROCESS_COUNT` rounds are enough (`Find.find_activated-ends`).
pub find_activated_child_process_by_pid : Manager → ℕ → Outcome ℕ
find_activated_child_process_by_pid s pid = find_loop (suc max_process_count) s pid s.front

-- The loop over the ended processes: what it returns, and the table that it leaves.
take_loop : Manager → ℕ → List ℕ → ℕ × List ℕ
take_loop s pid [] = (0, [])
take_loop s pid (p ∷ ps) =
    let (found, rest) = take_loop s pid ps in
    if is_sought s pid p then (p, 0 ∷ ps) else (found, p ∷ rest)

pub take_zombie_process : Manager → ℕ → ℕ × Manager
take_zombie_process s pid =
    let (found, zombies) = take_loop s pid s.zombies in (found, record s { zombies = zombies })

-- `if (process && process->ParentID == current->ID) process->ParentID = current->ParentID;`
pub redirect : Manager → ℕ → Manager
redirect s p =
    if is_child s p
    then record s {
      pcb = write_pcb s.pcb p (record (s.pcb p) { parent_id = (s.pcb s.current).parent_id });
    }
    else s

redirect_runnables : ℕ → Manager → ℕ → Outcome Manager
redirect_runnables zero s i = hang
redirect_runnables (suc fuel) s i =
    let rest =
      redirect_runnables fuel (redirect s (get_or s.runnables i 0)) ((i + 1) % max_process_count) in
    if ltb i s.rear then rest else ok s

redirect_zombies : Manager → List ℕ → Manager
redirect_zombies s [] = s
redirect_zombies s (p ∷ ps) = redirect_zombies (redirect s p) ps

pub redirect_parent_of_children : Manager → Outcome Manager
redirect_parent_of_children s = do
  s' ← redirect_runnables (suc max_process_count) s s.front
  ok (redirect_zombies s' s'.zombies)

-- What `WaitProcess` returns and does: the identifier, -1 or -2; the exit code that it writes, if it
-- writes one; the PCB that it gives to `Free`, if any.
pub record Waited : Type 0 where
  pub returned : ℕ
  pub exit_code : Option ℕ
  pub freed : Option ℕ

pub wait_process : Manager → ℕ → Outcome (Waited × Manager)
wait_process s pid = do
  activated ← find_activated_child_process_by_pid s pid
  let (dead, s') = take_zombie_process s pid
  if (activated == 0) && (dead == 0)
      then ok (record { returned = 2 ^ 32 - 1; exit_code = none; freed = none }, s')
      else if dead == 0
      then ok (record { returned = 2 ^ 32 - 2; exit_code = none; freed = none }, s')
      else ok (
        record {
          returned = (s'.pcb dead).id;
          exit_code = some (s'.pcb dead).exit_code;
          freed = some dead;
        },
        s',
      )
