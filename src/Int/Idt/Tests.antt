-- ===== src/Int/Idt/Tests.antt =====
-- A table of gates to entry points that lie 16 bytes apart.
use gos_v.Common.{ℕ, ◌+◌, ◌*◌, ◌%◌}

abbrev entries : ℕ → ℕ
entries k = 1048576 + k % 256 * 16
