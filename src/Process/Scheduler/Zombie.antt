-- ===== src/Process/Scheduler/Zombie.antt =====
-- `Schedule` with a current process that has ended, and the table of ended processes.
use gos_v.Common.{
  ℕ, zero, suc, ◌+◌, ◌<◌, ap, ◌≡◌, ◌≢◌, refl, true, some, List, [], ◌∷◌, ok, arith, length, get_or,
  set, inl, inr, ne→==,
}
use gos_v.Process.Scheduler.{Manager, is_zombie, free_slot, add_process_to_zombie, bury, schedule}
use gos_v.Process.Scheduler.Ready.{Ready}
use gos_v.Process.Scheduler.RoundRobin.{
  Switched, after, dispatch-Dispatches, requeue_not, Ready-queue,
}

-- A slot that holds null, after others that do not, is the one that is found.
free_slot-first :
    (ps : List ℕ) (i : ℕ)
    → i < length ps
    → get_or ps i 1 ≡ 0
    → ((j : ℕ) → j < i → get_or ps j 0 ≢ 0)
    → free_slot ps ≡ some i
unfolding free_slot
free_slot-first [] i l here before = absurd (omega (arith, l))
free_slot-first (p ∷ ps) zero l here before = rw here refl
free_slot-first (p ∷ ps) (suc i) l here before =
    let t : 1 + i ≡ suc i = omega arith in
    rw
      (
        ne→== p 0 (before 0 (omega arith)),
        free_slot-first ps i (omega (arith, l)) here (λ j h. before (suc j) (omega (arith, h))),
      )
      (ap some t)

bury_dead :
    (s : Manager) (i : ℕ)
    → (s.pcb s.current).id ≢ 0
    → is_zombie (s.pcb s.current).status ≡ true
    → free_slot s.zombies ≡ some i
    → bury s s.current ≡ ok (record s { zombies = set s.zombies i s.current })
unfolding bury add_process_to_zombie
bury_dead s i n z e = rw (ne→== (s.pcb s.current).id 0 n, z, e, add_process_to_zombie) refl

-- `Schedule` with a current process that has ended, and is not the idle one: it goes to the place
-- `i` of the table of the ended, where `i` is the first that is null, is not put back, and the
-- oldest of the ready queue runs next.
pub schedule_buries :
    (s : Manager) (i y : ℕ) (ys : List ℕ)
    → s.current ≢ 0
    → Ready s (y ∷ ys)
    → (s.pcb s.current).id ≢ 0
    → is_zombie (s.pcb s.current).status ≡ true
    → i < length s.zombies
    → get_or s.zombies i 1 ≡ 0
    → ((j : ℕ) → j < i → get_or s.zombies j 0 ≢ 0)
    → (s' : Manager) × (schedule s ≡ ok s')
      × Ready s' ys
      × Switched (record s { zombies = set s.zombies i s.current }) s.current y s'
unfolding schedule
schedule_buries s i y ys n r k z l here before =
    let e = free_slot-first s.zombies i l here before in
    let t = record s { zombies = set s.zombies i s.current } in
    let (d, f, g) = dispatch-Dispatches t s.current y ys (Ready-queue t s (y ∷ ys) refl r) in
    (
      after t s.current y,
      rw (ne→== s.current 0 n, requeue_not s (inr (inl z)), bury_dead s i k z e) d,
      f,
      g,
    )
