-- ===== src/Ds/Lock.antt =====
-- kernel/ds/lock.c: the reentrant lock.
-- A process is its pointer, null is 0. The wait queue is the list that Ds/Fifo promises of queue.c. A
-- call of `Lock` is cut where it calls `Schedule`: the part before it, and the loop that it goes on
-- with once the scheduler has come back to the process.
pub mod Steps
pub mod Sound
pub mod Exclusion
mod Tests
use gos_v.Common.{
  ℕ, ◌+◌, ◌-◌, ◌%◌, ◌^◌, Bool, true, false, Option, none, some, List, [], ◌∷◌, Outcome, ok, panic,
  hang, ◌>>=◌, ◌==◌, if◌then◌else◌,
}
use gos_v.Ds.Fifo.{push}

-- `struct ReentrantLock`
pub record ReentrantLock : Type 0 where
  pub locked : Bool
  pub initialized : Bool
  pub entrant_count : ℕ
  pub owner : ℕ
  pub wait_queue : List ℕ

-- `NewReentrantLock`
abbrev pub new_reentrant_lock : ReentrantLock
new_reentrant_lock = record {
  locked = false;
  initialized = true;
  entrant_count = 0;
  owner = 0;
  wait_queue = [];
}

-- A queue of MAX_PROCESS_COUNT slots holds one less.
abbrev pub wait_capacity : ℕ
wait_capacity = 1023

-- From `while (self->Locked == TRUE)` on: whether the lock is taken, or the process is put into the
-- wait queue, blocked, and `Schedule` is called.
unfoldable pub lock_loop : ReentrantLock → ℕ → Outcome (Bool × ReentrantLock)
lock_loop self current =
    if self.locked
    then (do
      queue ← push wait_capacity self.wait_queue current
      ok (false, record self { wait_queue = queue }))
    else ok (true, record self { locked = true; owner = current; entrant_count = 1 })

-- `ReentrantLock_Lock`
unfoldable pub lock : ReentrantLock → ℕ → Outcome (Bool × ReentrantLock)
lock self current =
    if self.initialized
    then (if current == 0
        then ok (true, self)
        else (if self.owner == current
            then ok (true, record self { entrant_count = (self.entrant_count + 1) % 2 ^ 32 })
            else lock_loop self current))
    else ok (true, self)

-- The first of the wait queue, if there is one, is taken out of it.
unfoldable pub wake : ReentrantLock → List ℕ → Option ℕ × ReentrantLock
wake self [] = (none, self)
wake self (next ∷ queue) = (some next, record self { wait_queue = queue })

-- `ReentrantLock_Unlock`, with the process that is made runnable, if there is one.
unfoldable pub unlock : ReentrantLock → ℕ → Outcome (Option ℕ × ReentrantLock)
unlock self current =
    if self.initialized
    then (if current == 0
        then ok (none, self)
        else (if self.owner == current
            then (let count = (self.entrant_count + (2 ^ 32 - 1)) % 2 ^ 32 in
                if count == 0
                then ok (
                    wake (record self { entrant_count = count; locked = false; owner = 0 })
                      self.wait_queue)
                else ok (none, record self { entrant_count = count }))
            else panic))
    else ok (none, self)
