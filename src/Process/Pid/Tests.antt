-- ===== src/Process/Pid/Tests.antt =====
-- The theorems on the process identifiers at a bitmap with 0 to 33 in use, but 32.
use gos_v.Common.{◌^◌, ◌-◌, ◌≡◌, refl, false, ◌∷◌, arith, replicate}
use gos_v.Process.Pid.{Bitmap, free_pid, in_use}
use gos_v.Process.Pid.Laws.{in_use-free_pid}

abbrev busy : Bitmap
busy = (2 ^ 32 - 1) ∷ 2 ∷ replicate 30 0

abbrev busier : Bitmap
busier = (2 ^ 32 - 1) ∷ 3 ∷ replicate 30 0

in_use-free_pid_example : in_use (free_pid busier 33) 33 ≡ false
in_use-free_pid_example = in_use-free_pid busier 33 33 refl (omega arith) (omega arith)
