-- ===== src/Ds/Queue/Refine.antt =====
-- The circular queue against the bounded first-in-first-out list of Ds/Fifo.
use mathlib.Core.Path.{ap₂}
use gos_v.Common.{
  ℕ, zero, suc, ◌+◌, ◌-◌, ◌%◌, ◌<◌, ◌≤◌, ◌≡◌, ◌≢◌, refl, sym, ◌∙◌, ap, List, [], ◌∷◌, ◌++◌, arith,
  Outcome, ok, panic, hang, ◌>>=◌, ◌==◌, leb, ltb, if◌then◌else◌, length, get_or, set,
  get_or-set_self, get_or-set_ne,
}
use gos_v.Ds.Fifo
use gos_v.Ds.Queue.Calls.{Pointer, null, Op, put, take_out, ask_empty}
use gos_v.Ds.Queue.{Queue, empty, push, pop, run}
use gos_v.Ds.Queue.Invariant.{IsValid, count, next_lem, push-IsValid, pop-IsValid}

-- The `n` pointers from slot `h` on, going round at `size`.
abbrev pub window : List Pointer → ℕ → ℕ → ℕ → List Pointer
window buf size h zero = []
window buf size h (suc n) = get_or buf h null ∷ window buf size ((h + 1) % size) n

pub length-window : (buf : List Pointer) (size h n : ℕ) → length (window buf size h n) ≡ n
length-window buf size h zero = refl
length-window buf size h (suc n) = ap suc (length-window buf size ((h + 1) % size) n)

unfoldable pub contents : Queue → List Pointer
contents q = window q.value q.malloc_size q.front (count q)

-- The slot behind a window of `n`.
abbrev behind : ℕ → ℕ → ℕ → ℕ
behind size h n = if ltb (h + n) size then h + n else h + n - size

-- A write to the slot behind a window extends the window.
pub window-set :
    (buf : List Pointer) (size x h n i : ℕ)
    → size ≡ length buf
    → h < size
    → n < size
    → i ≡ behind size h n
    → window (set buf i x) size h (suc n) ≡ window buf size h n ++ (x ∷ [])
window-set buf size x h zero i s hh hn e =
    ap (λ k. k ∷ [])
      (ap (λ k. get_or (set buf k x) h null) at_h ∙ get_or-set_self buf h x null (omega arith))
  where
    at_h : i ≡ h
    at_h = ground arith
window-set buf size x h (suc n) i s hh hn e =
    ap₂ ◌∷◌ (get_or-set_ne buf i h x null (ground arith)) (
      window-set buf size x ((h + 1) % size) n i s (ground (arith, next_lem h size hh))
        (omega arith) (ground (arith, next_lem h size hh)))

-- A queue that is not empty shows its first pointer.
pub window-pred :
    (buf : List Pointer) (size h n : ℕ)
    → n ≢ 0
    → window buf size h n ≡ get_or buf h null ∷ window buf size ((h + 1) % size) (n - 1)
window-pred buf size h zero p = absurd (p refl)
window-pred buf size h (suc n) p = ap (λ k. window buf size h (suc k)) (omega arith)

-- `push` panics exactly where the bounded list does, and else leaves the queue holding its list.
pub push_refines :
    (q : Queue) (x : Pointer)
    → IsValid q
    → (do q' ← push q x; ok (contents q')) ≡ Fifo.push (q.malloc_size - 1) (contents q) x
unfolding push Fifo.push contents count
push_refines q x v = ground (
  arith,
  length-window q.value q.malloc_size q.front (count q),
  next_lem q.rear q.malloc_size v.rear_in,
  window-set q.value q.malloc_size x q.front (count q) q.rear,
)

-- `pop` returns what the list's `pop` returns, null where it is empty, and leaves the rest.
pub pop_refines : (q : Queue) → IsValid q → ((pop q).0, contents (pop q).1) ≡ Fifo.pop (contents q)
unfolding pop Fifo.pop contents count
pop_refines q v = ground (
  arith,
  next_lem q.front q.malloc_size v.front_in,
  window-pred q.value q.malloc_size q.front (count q),
)

-- `empty` tells whether no pointer is queued.
pub empty-contents : (q : Queue) → IsValid q → empty q ≡ (length (contents q) == 0)
unfolding empty contents count
empty-contents q v = ground (arith, length-window q.value q.malloc_size q.front (count q))

push-malloc_size :
    (q : Queue) (x : Pointer) {q' : Queue} → push q x ≡ ok q' → q'.malloc_size ≡ q.malloc_size
unfolding push
push-malloc_size q x e = ground arith

pop-malloc_size : (q : Queue) → (pop q).1.malloc_size ≡ q.malloc_size
unfolding pop
pop-malloc_size q = ground arith

-- The list's `push` after a call of `push` that has come back.
push_to :
    (q : Queue) (x : Pointer) (q' : Queue)
    → IsValid q
    → push q x ≡ ok q'
    → Fifo.push (q.malloc_size - 1) (contents q) x ≡ ok (contents q')
push_to q x q' v e = sym (push_refines q x v) ∙ rw e refl

push_panics :
    (q : Queue) (x : Pointer)
    → IsValid q
    → push q x ≡ panic
    → Fifo.push (q.malloc_size - 1) (contents q) x ≡ panic
push_panics q x v e = sym (push_refines q x v) ∙ rw e refl

push-ne-hang : (q : Queue) (x : Pointer) → push q x ≢ hang
unfolding push
push-ne-hang q x = ground arith

run-put :
    (q : Queue) (x : Pointer) (ops : List Op)
    → IsValid q
    → ((q' : Queue)
        → push q x ≡ ok q'
        → run q' ops ≡ Fifo.run (q.malloc_size - 1) (contents q') ops)
    → (r : Outcome Queue) → push q x ≡ r
    → run q (put x ∷ ops) ≡ Fifo.run (q.malloc_size - 1) (contents q) (put x ∷ ops)
unfolding run Fifo.run
run-put q x ops v ih (ok q') e = rw (e, run, Fifo.run, push_to q x q' v e, ih q' e)
run-put q x ops v ih panic e = rw (e, run, Fifo.run, push_panics q x v e)
run-put q x ops v ih hang e = absurd (push-ne-hang q x e)

-- No sequence of calls tells a valid queue of `size` slots from a list of at most `size - 1`
-- pointers: the replies are the same, and so is where the run ends in a panic.
pub run_refines :
    (ops : List Op) (q : Queue)
    → IsValid q
    → run q ops ≡ Fifo.run (q.malloc_size - 1) (contents q) ops
unfolding run Fifo.run
run_refines [] q v = refl
run_refines (put x ∷ ops) q v =
    run-put q x ops v
      (λ q' e. rw (← push-malloc_size q x e) (run_refines ops q' (push-IsValid q x v e))) (push q x)
      refl
run_refines (take_out ∷ ops) q v =
    rw (run_refines ops (pop q).1 (pop-IsValid q v), ← pop_refines q v, pop-malloc_size)
run_refines (ask_empty ∷ ops) q v = rw (run_refines ops q v, empty-contents q v)

-- A write to a slot that the window does not reach leaves the window as it is.
pub window-set_outside :
    (buf : List Pointer) (size h n i x : ℕ)
    → h < size
    → i < size
    → n ≤ (if leb h i then i - h else i + size - h)
    → window (set buf i x) size h n ≡ window buf size h n
window-set_outside buf size h zero i x hh hi d = refl
window-set_outside buf size h (suc n) i x hh hi d =
    ap₂ ◌∷◌ (get_or-set_ne buf i h x null (ground arith)) (
      window-set_outside buf size ((h + 1) % size) n i x (ground (arith, next_lem h size hh)) hi
        (ground (arith, next_lem h size hh)))
