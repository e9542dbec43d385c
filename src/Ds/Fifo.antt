-- ===== src/Ds/Fifo.antt =====
-- What kernel/ds/queue.c promises: a first-in-first-out list of at most `cap` pointers.
use gos_v.Common.{
  ℕ, List, [], ◌∷◌, ◌++◌, Outcome, ok, panic, hang, ◌>>=◌, ◌==◌, if◌then◌else◌, length,
}
use gos_v.Ds.Queue.Calls.{Pointer, null, Op, put, take_out, ask_empty, Reply, done, taken, told}

unfoldable pub push : ℕ → List Pointer → Pointer → Outcome (List Pointer)
push cap xs x = if length xs == cap then panic else ok (xs ++ (x ∷ []))

unfoldable pub pop : List Pointer → Pointer × List Pointer
pop [] = (null, [])
pop (x ∷ xs) = (x, xs)

unfoldable pub run : ℕ → List Pointer → List Op → Outcome (List Reply)
run cap xs [] = ok []
run cap xs (put x ∷ ops) = elim (push cap xs x) [
  | ok ys ↦ (do rest ← run cap ys ops; ok (done ∷ rest))
  | panic ↦ panic
  | hang ↦ hang
]
run cap xs (take_out ∷ ops) = let (x, ys) = pop xs in do rest ← run cap ys ops; ok (taken x ∷ rest)
run cap xs (ask_empty ∷ ops) = do rest ← run cap xs ops; ok (told (length xs == 0) ∷ rest)
