-- ===== src/Process/Pid.antt =====
-- The allocator of process identifiers of kernel/process/process.c.
pub mod Laws
mod Tests
use gos_v.Common.{ℕ, ◌/◌, ◌%◌, Bool, Option, List, get_or}
use gos_v.Common.Bits.{has_bit}
use gos_v.Common.Bitmap.{claim, release}

-- `MAX_PROCESS_COUNT`
abbrev pub max_process_count : ℕ
max_process_count = 1024

-- `PIDAllocator.Bitmap`: 32 words of 32 bits.
abbrev pub Bitmap : Type 0
Bitmap = List ℕ

-- `none` is the end of the function without a `return`, when all identifiers are in use.
pub allocate_pid : Bitmap → Option (ℕ × Bitmap)
allocate_pid bitmap = claim 32 0 bitmap

pub free_pid : Bitmap → ℕ → Bitmap
free_pid bitmap pid = release bitmap (pid / 32) (pid % 32)

-- The identifier's bit.
unfoldable pub in_use : Bitmap → ℕ → Bool
in_use bitmap pid = has_bit (get_or bitmap (pid / 32) 0) (pid % 32)
