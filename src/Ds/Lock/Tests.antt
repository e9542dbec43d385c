-- ===== src/Ds/Lock/Tests.antt =====
-- Two processes at a lock.
use gos_v.Common.{◌≡◌, refl, arith, true, false, some, [], ◌∷◌, ok}
use gos_v.Ds.Fifo.{push}
use gos_v.Ds.Lock.{ReentrantLock, new_reentrant_lock, lock, lock_loop, unlock, wake}
use gos_v.Ds.Lock.Steps.{
  System, takes, waits, gives_back, Reachable, begins, goes_on, raise, lower, initial,
}
use gos_v.Ds.Lock.Exclusion.{Excludes, Reachable-Excludes}

-- 5 has the lock.
abbrev one_in : ReentrantLock
one_in = record { locked = true; initialized = true; entrant_count = 1; owner = 5; wait_queue = [] }

-- 7 waits for it.
abbrev one_waits : ReentrantLock
one_waits = record {
  locked = true;
  initialized = true;
  entrant_count = 1;
  owner = 5;
  wait_queue = 7 ∷ [];
}

-- 5 has given it back, and 7 is woken.
abbrev free_again : ReentrantLock
free_again = record {
  locked = false;
  initialized = true;
  entrant_count = 0;
  owner = 0;
  wait_queue = [];
}

first_takes : lock new_reentrant_lock 5 ≡ ok (true, one_in)
unfolding lock lock_loop
first_takes = refl

second_waits : lock one_in 7 ≡ ok (false, one_waits)
unfolding lock lock_loop push
second_waits = refl

first_leaves : unlock one_waits 5 ≡ ok (some 7, free_again)
unfolding unlock wake
first_leaves = refl

abbrev after_takes : System
after_takes = record { lock = one_in; depth = raise (λ p. 0) 5; woken = [] }

abbrev after_waits : System
after_waits = record { lock = one_waits; depth = raise (λ p. 0) 5; woken = [] }

abbrev after_leaves : System
after_leaves = record { lock = free_again; depth = lower (raise (λ p. 0) 5) 5; woken = 7 ∷ [] }

after_leaves-Reachable : Reachable after_leaves
after_leaves-Reachable =
    goes_on after_waits after_leaves
      (goes_on after_takes after_waits
        (goes_on initial after_takes begins
          (takes initial 5 one_in (omega arith) (omega arith) first_takes))
        (waits after_takes 7 one_waits (omega arith) (omega arith) second_waits))
      (gives_back after_waits 5 (some 7) free_again (omega arith) first_leaves)

Reachable-Excludes_example : Excludes after_leaves.lock after_leaves.depth after_leaves.woken
Reachable-Excludes_example = Reachable-Excludes after_leaves after_leaves-Reachable
