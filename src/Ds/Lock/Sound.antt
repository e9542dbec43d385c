-- ===== src/Ds/Lock/Sound.antt =====
-- What a call of `Lock` of kernel/ds/lock.c leaves.
use gos_v.Common.{
  ℕ, ◌+◌, ◌%◌, ◌^◌, ◌<◌, ◌≡◌, ◌⊎◌, inl, inr, refl, sym, ap, ◌∙◌, arith, Bool, true, false, List, [],
  ◌∷◌, ◌++◌, Outcome, ok, panic, hang, ◌>>=◌, ◌==◌, if◌then◌else◌, Bool-cases, ==→eq, ne→==, length,
}
use gos_v.Ds.Fifo.{push}
use gos_v.Ds.Lock.{ReentrantLock, lock, lock_loop, wait_capacity}
use gos_v.Ds.Lock.Steps.{raise}

-- Either the lock is free, no process has it, and who waits has been woken; or its owner alone has it,
-- as often as it counts.
pub data Sound (l : ReentrantLock) (depth : ℕ → ℕ) (woken : List ℕ) : Type 0 where
  free :
      l.initialized ≡ true
      → l.locked ≡ false
      → l.owner ≡ 0
      → ((q : ℕ) → depth q ≡ 0)
      → (l.wait_queue ≡ []) ⊎ (0 < length woken)
      → Sound l depth woken
  held :
      l.initialized ≡ true
      → l.locked ≡ true
      → 0 < l.owner
      → 0 < l.entrant_count
      → l.entrant_count < 2 ^ 32
      → depth l.owner ≡ l.entrant_count
      → ((q : ℕ) → ¬ (q ≡ l.owner) → depth q ≡ 0)
      → Sound l depth woken

-- What a try leaves.
unfoldable pub Tried : (ℕ → ℕ) → List ℕ → ℕ → Outcome (Bool × ReentrantLock) → Type 0
Tried depth woken' p (ok (true, l)) = Sound l (raise depth p) woken'
Tried depth woken' p (ok (false, l)) = Sound l depth woken'
Tried depth woken' p panic = Unit {0}
Tried depth woken' p hang = ⊥

queued-Tried :
    (l : ReentrantLock) (depth : ℕ → ℕ) (woken' : List ℕ) (p : ℕ) (r : Outcome (List ℕ))
    → ((q : List ℕ) → Sound (record l { wait_queue = q }) depth woken')
    → ¬ (r ≡ hang)
    → Tried depth woken' p (r >>= (λ q. ok (false, record l { wait_queue = q })))
unfolding Tried
queued-Tried l depth woken' p (ok q) f n = f q
queued-Tried l depth woken' p panic f n = tt
queued-Tried l depth woken' p hang f n = n refl

taken-Sound :
    (l : ReentrantLock) (depth : ℕ → ℕ) (woken : List ℕ) (p : ℕ)
    → l.initialized ≡ true
    → 0 < p
    → ((q : ℕ) → depth q ≡ 0)
    → Sound (record l { locked = true; owner = p; entrant_count = 1 }) (raise depth p) woken
taken-Sound l depth woken p i h d =
    held i refl h (omega arith) (omega arith) (ground (arith, d p))
      (λ q n. ground (arith, d q, ne→== q p n))

pub then_branch :
    {A : Type 0} (P : A → Type 0) (b : Bool) (x y : A) → b ≡ true → P x → P (if b then x else y)
then_branch P true x y e h = h
then_branch P false x y e h = cc

pub else_branch :
    {A : Type 0} (P : A → Type 0) (b : Bool) (x y : A) → b ≡ false → P y → P (if b then x else y)
else_branch P true x y e h = cc
else_branch P false x y e h = h

either_ends : (b : Bool) (xs : List ℕ) → ¬ ((if b then panic else ok xs) ≡ hang)
either_ends true xs e = cc
either_ends false xs e = cc

push_ends : (cap x : ℕ) (xs : List ℕ) → ¬ (push cap xs x ≡ hang)
unfolding push
push_ends cap x xs = either_ends (length xs == cap) (xs ++ (x ∷ []))

pub loop-Tried :
    (l : ReentrantLock) (depth : ℕ → ℕ) (woken woken' : List ℕ) (p : ℕ)
    → 0 < p
    → Sound l depth woken
    → Tried depth woken' p (lock_loop l p)
unfolding lock_loop Tried
loop-Tried l depth woken woken' p h (free i f o d w) =
    else_branch (Tried depth woken' p) l.locked _ _ f (taken-Sound l depth woken' p i h d)
loop-Tried l depth woken woken' p h (held i t o c b e n) =
    then_branch (Tried depth woken' p) l.locked _ _ t (
      queued-Tried l depth woken' p (push wait_capacity l.wait_queue p) (λ q. held i t o c b e n)
        (push_ends wait_capacity p l.wait_queue))

-- The owner takes the lock once more.
again-Sound :
    (l : ReentrantLock) (depth : ℕ → ℕ) (woken : List ℕ) (p : ℕ)
    → 0 < p
    → l.owner ≡ p
    → depth p + 1 < 2 ^ 32
    → Sound l depth woken
    → Sound (record l { entrant_count = (l.entrant_count + 1) % 2 ^ 32 }) (raise depth p) woken
again-Sound l depth woken p h q u (free i f o d w) = absurd (omega (arith, h, q, o))
again-Sound l depth woken p h q u (held i t o c b e n) =
    let z : depth p ≡ l.entrant_count = ap depth (sym q) ∙ e in
    held i t o (omega (arith, z, u)) (omega arith) (ground (arith, z, u, q))
      (λ k m. ground (arith, n k m, q, ne→== k p (λ x. m (x ∙ sym q))))

pub initialized-Sound :
    (l : ReentrantLock) (depth : ℕ → ℕ) (woken : List ℕ)
    → Sound l depth woken
    → l.initialized ≡ true
initialized-Sound l depth woken (free i f o d w) = i
initialized-Sound l depth woken (held i t o c b e n) = i

again-Tried :
    (l : ReentrantLock) (depth : ℕ → ℕ) (woken : List ℕ) (p : ℕ)
    → 0 < p
    → l.owner ≡ p
    → depth p + 1 < 2 ^ 32
    → Sound l depth woken
    → Tried depth woken p (ok (true, record l { entrant_count = (l.entrant_count + 1) % 2 ^ 32 }))
unfolding Tried
again-Tried l depth woken p h q u s = again-Sound l depth woken p h q u s

pub lock-Tried :
    (l : ReentrantLock) (depth : ℕ → ℕ) (woken : List ℕ) (p : ℕ)
    → 0 < p
    → depth p + 1 < 2 ^ 32
    → Sound l depth woken
    → Tried depth woken p (lock l p)
unfolding lock
lock-Tried l depth woken p h u s =
    then_branch (Tried depth woken p) l.initialized _ _ (initialized-Sound l depth woken s) (
      else_branch (Tried depth woken p) (p == 0) _ _ (ne→== p 0 (λ e. omega (arith, e, h)))
        (elim (Bool-cases (l.owner == p)) [
          | inl e ↦
              then_branch (Tried depth woken p) (l.owner == p) _ _ e
                (again-Tried l depth woken p h (==→eq l.owner p e) u s)
          | inr e ↦
              else_branch (Tried depth woken p) (l.owner == p) _ _ e
                (loop-Tried l depth woken woken p h s)
        ]))
