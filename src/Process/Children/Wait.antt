-- ===== src/Process/Children/Wait.antt =====
-- `WaitProcess` of kernel/process/create.c: the cases that its comment lists.
use gos_v.Common.{
  ℕ, ◌-◌, ◌^◌, ◌≡◌, ◌≢◌, ◌∙◌, none, some, List, ok, arith, ◌==◌, if◌then◌else◌, leb, Bool-cases,
  inl, inr,
}
use gos_v.Process.Scheduler.{Manager}
use gos_v.Process.Scheduler.Ready.{Ready}
use gos_v.Process.Children.{wait_process, find_activated_child_process_by_pid}
use gos_v.Process.Children.Find.{
  first_sought, find_activated-first, find_activated_wrapped, take_zombie_lem, without,
}

module _ (s : Manager) (pid : ℕ) where
  wait_any :
      (a : ℕ)
      → find_activated_child_process_by_pid s pid ≡ ok a
      → wait_process s pid ≡ (
          let z = first_sought s pid s.zombies in
          ok (
            if z == 0
                then record {
                  returned = if a == 0 then 2 ^ 32 - 1 else 2 ^ 32 - 2;
                  exit_code = none;
                  freed = none;
                }
                else record {
                  returned = (s.pcb z).id;
                  exit_code = some (s.pcb z).exit_code;
                  freed = some z;
                },
            record s { zombies = without s pid s.zombies },
          ))
  unfolding wait_process
  wait_any a e = rw (e, take_zombie_lem s pid) (ground arith)

  -- With an ended child that is sought, `WaitProcess` returns the identifier of the first, writes its
  -- exit code, frees its PCB and takes it from the table.
  pub wait_zombie :
      (xs : List ℕ)
      → Ready s xs
      → first_sought s pid s.zombies ≢ 0
      → wait_process s pid
        ≡ ok (
          record {
            returned = (s.pcb (first_sought s pid s.zombies)).id;
            exit_code = some (s.pcb (first_sought s pid s.zombies)).exit_code;
            freed = some (first_sought s pid s.zombies);
          },
          record s { zombies = without s pid s.zombies },
        )
  wait_zombie xs r z = elim (Bool-cases (leb s.front s.rear)) [
    | inl h ↦ wait_any _ (find_activated-first s pid xs r (ground arith)) ∙ ground arith
    | inr h ↦ wait_any 0 (find_activated_wrapped s pid (ground arith)) ∙ ground arith
  ]
