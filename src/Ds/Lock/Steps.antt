-- ===== src/Ds/Lock/Steps.antt =====
-- The processes that use a lock of kernel/ds/lock.c, one after the other as the scheduler lets them.
use gos_v.Common.{
  ℕ, ◌+◌, ◌-◌, ◌^◌, ◌<◌, ◌≡◌, true, false, Option, none, some, List, [], ◌∷◌, ◌++◌, ok, ◌==◌,
  if◌then◌else◌,
}
use gos_v.Ds.Lock.{ReentrantLock, new_reentrant_lock, lock, lock_loop, unlock}

-- The lock, how often each process has taken it, and the processes in the loop of `Lock` that are
-- runnable again.
pub record System : Type 0 where
  pub lock : ReentrantLock
  pub depth : ℕ → ℕ
  pub woken : List ℕ

abbrev pub raise : (ℕ → ℕ) → ℕ → ℕ → ℕ
raise depth p q = if q == p then depth q + 1 else depth q

abbrev pub lower : (ℕ → ℕ) → ℕ → ℕ → ℕ
lower depth p q = if q == p then depth q - 1 else depth q

-- The processes that are runnable after an `Unlock`.
abbrev pub add_woken : Option ℕ → List ℕ → List ℕ
add_woken none woken = woken
add_woken (some p) woken = p ∷ woken

-- A process calls `Lock` and takes the lock, or waits for it; one that was woken goes on in the loop
-- and takes it, or waits again; a process calls `Unlock`.
pub data Step : System → System → Type 0 where
  takes :
      (s : System) (p : ℕ) (l : ReentrantLock)
      → 0 < p
      → s.depth p + 1 < 2 ^ 32
      → lock s.lock p ≡ ok (true, l)
      → Step s (record { lock = l; depth = raise s.depth p; woken = s.woken })
  waits :
      (s : System) (p : ℕ) (l : ReentrantLock)
      → 0 < p
      → s.depth p + 1 < 2 ^ 32
      → lock s.lock p ≡ ok (false, l)
      → Step s (record { lock = l; depth = s.depth; woken = s.woken })
  takes_at_last :
      (s : System) (p : ℕ) (xs ys : List ℕ) (l : ReentrantLock)
      → 0 < p
      → s.woken ≡ xs ++ p ∷ ys
      → lock_loop s.lock p ≡ ok (true, l)
      → Step s (record { lock = l; depth = raise s.depth p; woken = xs ++ ys })
  waits_again :
      (s : System) (p : ℕ) (xs ys : List ℕ) (l : ReentrantLock)
      → 0 < p
      → s.woken ≡ xs ++ p ∷ ys
      → lock_loop s.lock p ≡ ok (false, l)
      → Step s (record { lock = l; depth = s.depth; woken = xs ++ ys })
  gives_back :
      (s : System) (p : ℕ) (next : Option ℕ) (l : ReentrantLock)
      → 0 < p
      → unlock s.lock p ≡ ok (next, l)
      → Step s (record { lock = l; depth = lower s.depth p; woken = add_woken next s.woken })

abbrev pub initial : System
initial = record { lock = new_reentrant_lock; depth = λ p. 0; woken = [] }

pub data Reachable : System → Type 0 where
  begins : Reachable initial
  goes_on : (s s' : System) → Reachable s → Step s s' → Reachable s'
