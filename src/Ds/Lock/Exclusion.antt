-- ===== src/Ds/Lock/Exclusion.antt =====
-- The lock of kernel/ds/lock.c excludes, and wakes who waits.
use gos_v.Common.{
  ℕ, ◌+◌, ◌-◌, ◌%◌, ◌^◌, ◌<◌, ◌≡◌, ◌⊎◌, inl, inr, refl, sym, ap, subst, ◌∙◌, arith, true, false,
  Option, none, List, [], ◌∷◌, ◌++◌, Outcome, ok, panic, hang, ◌==◌, if◌then◌else◌, Bool-cases,
  ==→eq, ne→==, length,
}
use gos_v.Ds.Lock.{ReentrantLock, unlock, wake}
use gos_v.Ds.Lock.Steps.{
  System, Step, takes, waits, takes_at_last, waits_again, gives_back, Reachable, begins, goes_on,
  lower, add_woken,
}
use gos_v.Ds.Lock.Sound.{
  Sound, free, held, Tried, then_branch, else_branch, loop-Tried, lock-Tried, initialized-Sound,
}

-- What giving back leaves.
Gave : (ℕ → ℕ) → List ℕ → ℕ → Outcome (Option ℕ × ReentrantLock) → Type 0
Gave depth woken p (ok (next, l)) = Sound l (lower depth p) (add_woken next woken)
Gave depth woken p panic = Unit {0}
Gave depth woken p hang = ⊥

lower_owner :
    (depth : ℕ → ℕ) (p k : ℕ)
    → depth p ≡ 1
    → ((q : ℕ) → ¬ (q ≡ p) → depth q ≡ 0)
    → lower depth p k ≡ 0
lower_owner depth p k e n = elim (Bool-cases (k == p)) [
  | inl x ↦ let y = ap depth (==→eq k p x) in rw x (omega (arith, y, e))
  | inr x ↦ rw x (n k (λ q. let z : k == k ≡ false = ap (λ v. k == v) q ∙ x in ground (arith, z)))
]

last-Gave :
    (l : ReentrantLock) (depth : ℕ → ℕ) (woken queue : List ℕ) (p : ℕ)
    → l.initialized ≡ true
    → l.locked ≡ false
    → l.owner ≡ 0
    → ((q : ℕ) → lower depth p q ≡ 0)
    → l.wait_queue ≡ queue
    → Gave depth woken p (ok (wake l queue))
unfolding Gave wake
last-Gave l depth woken [] p i f o d e = free i f o d (inl e)
last-Gave l depth woken (next ∷ queue) p i f o d e = free i f o d (inr (omega arith))

owner-Gave :
    (l : ReentrantLock) (depth : ℕ → ℕ) (woken : List ℕ) (p : ℕ)
    → 0 < p
    → l.owner ≡ p
    → Sound l depth woken
    → Gave depth woken p (
        let count = (l.entrant_count + (2 ^ 32 - 1)) % 2 ^ 32 in
        if count == 0
        then ok (wake (record l { entrant_count = count; locked = false; owner = 0 }) l.wait_queue)
        else ok (none, record l { entrant_count = count }))
unfolding Gave
owner-Gave l depth woken p h q (free i f o d w) = absurd (omega (arith, h, q, o))
owner-Gave l depth woken p h q (held i t o c b e n) =
    let z : depth p ≡ l.entrant_count = ap depth (sym q) ∙ e in
    let count = (l.entrant_count + (2 ^ 32 - 1)) % 2 ^ 32 in
    elim (Bool-cases (count == 0)) [
      | inl x ↦ then_branch (Gave depth woken p) (count == 0) _ _ x (
          last-Gave _ depth woken l.wait_queue p i refl refl
            (λ k. lower_owner depth p k (ground (arith, z, x, c, b)) (λ v m. n v (λ y. m (y ∙ q))))
            refl)
      | inr x ↦ else_branch (Gave depth woken p) (count == 0) _ _ x (
          held i t o (ground (arith, x, c, b)) (omega arith) (ground (arith, z, q, c, b))
            (λ v m. ground (arith, n v m)))
    ]

not_owner : (depth : ℕ → ℕ) (woken : List ℕ) (p : ℕ) → Gave depth woken p panic
unfolding Gave
not_owner depth woken p = tt

unlock-Gave :
    (l : ReentrantLock) (depth : ℕ → ℕ) (woken : List ℕ) (p : ℕ)
    → 0 < p
    → Sound l depth woken
    → Gave depth woken p (unlock l p)
unfolding unlock
unlock-Gave l depth woken p h s =
    then_branch (Gave depth woken p) l.initialized _ _ (initialized-Sound l depth woken s) (
      else_branch (Gave depth woken p) (p == 0) _ _ (ne→== p 0 (λ e. omega (arith, e, h)))
        (elim (Bool-cases (l.owner == p)) [
          | inl e ↦
              then_branch (Gave depth woken p) (l.owner == p) _ _ e
                (owner-Gave l depth woken p h (==→eq l.owner p e) s)
          | inr e ↦ else_branch (Gave depth woken p) (l.owner == p) _ _ e (not_owner depth woken p)
        ]))

Step-Sound :
    (s s' : System) → Step s s' → Sound s.lock s.depth s.woken → Sound s'.lock s'.depth s'.woken
unfolding Tried Gave
Step-Sound _ _ (takes s p l h u e) a =
    subst (Tried s.depth s.woken p) e (lock-Tried s.lock s.depth s.woken p h u a)
Step-Sound _ _ (waits s p l h u e) a =
    subst (Tried s.depth s.woken p) e (lock-Tried s.lock s.depth s.woken p h u a)
Step-Sound _ _ (takes_at_last s p xs ys l h w e) a =
    subst (Tried s.depth (xs ++ ys) p) e (loop-Tried s.lock s.depth s.woken (xs ++ ys) p h a)
Step-Sound _ _ (waits_again s p xs ys l h w e) a =
    subst (Tried s.depth (xs ++ ys) p) e (loop-Tried s.lock s.depth s.woken (xs ++ ys) p h a)
Step-Sound _ _ (gives_back s p next l h e) a =
    subst (Gave s.depth s.woken p) e (unlock-Gave s.lock s.depth s.woken p h a)

Reachable-Sound : (s : System) → Reachable s → Sound s.lock s.depth s.woken
Reachable-Sound _ begins = free refl refl refl (λ q. refl) (inl refl)
Reachable-Sound _ (goes_on s0 s r t) = Step-Sound s0 s t (Reachable-Sound s0 r)

-- Who has the lock is its owner, as often as it counts; and when it is free nobody has it, and nobody
-- waits unless a process has been woken.
pub Excludes : ReentrantLock → (ℕ → ℕ) → List ℕ → Type 0
Excludes l depth woken =
    ((p : ℕ) → 0 < depth p → (l.owner ≡ p) × (l.entrant_count ≡ depth p))
    × (l.locked ≡ false → ((q : ℕ) → depth q ≡ 0) × ((l.wait_queue ≡ []) ⊎ (0 < length woken)))

alone :
    (depth : ℕ → ℕ) (owner p : ℕ)
    → ((q : ℕ) → ¬ (q ≡ owner) → depth q ≡ 0)
    → 0 < depth p
    → owner ≡ p
alone depth owner p n h = elim (Bool-cases (owner == p)) [
  | inl e ↦ ==→eq owner p e
  | inr e ↦
      let z = n p (λ x.
        let y : owner == owner ≡ false = ap (λ v. owner == v) (sym x) ∙ e in ground (arith, y)) in
      absurd (omega (arith, z, h))
]

Sound-Excludes :
    (l : ReentrantLock) (depth : ℕ → ℕ) (woken : List ℕ)
    → Sound l depth woken
    → Excludes l depth woken
unfolding Excludes
Sound-Excludes l depth woken (free i f o d w) =
    ((λ p h. absurd (omega (arith, d p, h))), λ e. (d, w))
Sound-Excludes l depth woken (held i t o c b e n) =
    ((λ p h. let q = alone depth l.owner p n h in (q, sym e ∙ ap depth q)), λ f. cc)

-- In whatever order the processes call `Lock` and `Unlock` and are woken, a process that has the lock
-- is its owner, so that no two have it, and it has it as often as the lock counts; and when the lock is
-- free nobody has it, and a process waits in the queue only if another has been woken for it.
pub Reachable-Excludes : (s : System) → Reachable s → Excludes s.lock s.depth s.woken
Reachable-Excludes s r = Sound-Excludes s.lock s.depth s.woken (Reachable-Sound s r)
