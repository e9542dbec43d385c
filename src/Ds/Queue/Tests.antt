-- ===== src/Ds/Queue/Tests.antt =====
-- The theorems on kernel/ds/queue.c at a queue that has gone round its array.
use gos_v.Common.{◌≡◌, refl, List, [], ◌∷◌, true, false, arith, ok, panic}
use gos_v.Ds.Fifo
use gos_v.Ds.Queue.Calls.{Op, put, take_out, ask_empty, taken, told, done}
use gos_v.Ds.Queue.{Queue, run, push, pop}
use gos_v.Ds.Queue.Invariant.{IsValid, count}
use gos_v.Ds.Queue.Refine.{contents, run_refines}

abbrev wrapped : Queue
wrapped = record { front = 2; rear = 1; value = 9 ∷ 7 ∷ 8 ∷ []; malloc_size = 3 }

abbrev script : List Op
script = take_out ∷ put 5 ∷ take_out ∷ ask_empty ∷ take_out ∷ take_out ∷ ask_empty ∷ []

wrapped-IsValid : IsValid wrapped
wrapped-IsValid = omega arith

run-wrapped :
    run wrapped script
    ≡ ok (taken 8 ∷ done ∷ taken 9 ∷ told false ∷ taken 5 ∷ taken 0 ∷ told true ∷ [])
unfolding run push pop
run-wrapped = refl

push_full : push wrapped 4 ≡ panic
unfolding push
push_full = refl

run_refines_example : run wrapped script ≡ Fifo.run 2 (8 ∷ 9 ∷ []) script
unfolding contents count
run_refines_example = run_refines script wrapped wrapped-IsValid
