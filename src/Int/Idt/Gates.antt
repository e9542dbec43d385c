-- ===== src/Int/Idt/Gates.antt =====
-- What the processor reads in the gates of kernel/int/idt.c.
use gos_v.Common.{ℕ, ◌+◌, ◌*◌, ◌/◌, ◌%◌, ◌^◌, ◌≡◌}
use gos_v.Gdt.{kernel_code_segment_selector}
use gos_v.Int.Idt.{InterruptDescriptor, gate_low, gate_high}

-- The words of a gate by the processor's manual: a present 32-bit interrupt gate of a level to an
-- address in a code segment.
pub record IsGate (g : InterruptDescriptor) (handler dpl : ℕ) : Type 0 where
  pub address : gate_low g % 2 ^ 16 + gate_high g / 2 ^ 16 % 2 ^ 16 * 2 ^ 16 ≡ handler
  pub segment : gate_low g / 2 ^ 16 % 2 ^ 16 ≡ kernel_code_segment_selector
  pub kind : gate_high g / 2 ^ 8 % 2 ^ 5 ≡ 0b01110
  pub level : gate_high g / 2 ^ 13 % 2 ^ 2 ≡ dpl
  pub there : gate_high g / 2 ^ 15 % 2 ≡ 1
