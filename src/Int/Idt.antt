-- ===== src/Int/Idt.antt =====
-- kernel/int/idt.c: the table of interrupt gates. The entry points are in assembly: their addresses
-- are parameters.
pub mod Gates
mod Tests
use gos_v.Common.{ℕ, ◌+◌, ◌*◌, ◌/◌, ◌%◌, ◌^◌, ◌==◌, ltb, if◌then◌else◌}

-- `struct InterruptDescriptor`
pub record InterruptDescriptor : Type 0 where
  pub offset_low : ℕ
  pub selector : ℕ
  pub reserved : ℕ
  pub type : ℕ
  pub segment : ℕ
  pub dpl : ℕ
  pub present : ℕ
  pub offset_high : ℕ

abbrev pub exception_count : ℕ
exception_count = 32

abbrev pub outeral_interrupt_count : ℕ
outeral_interrupt_count = 16

-- The entry of a static table before it is written.
unfoldable pub no_gate : InterruptDescriptor
no_gate = record {
  offset_low = 0;
  selector = 0;
  reserved = 0;
  type = 0;
  segment = 0;
  dpl = 0;
  present = 0;
  offset_high = 0;
}

-- The gate to an entry point, for callers of a privilege level.
unfoldable pub gate : ℕ → ℕ → InterruptDescriptor
gate handler dpl = record {
  offset_low = handler % 2 ^ 16;
  selector = 1 * 8;
  reserved = 0;
  type = 0b1110;
  segment = 0;
  dpl = dpl;
  present = 1;
  offset_high = handler / 2 ^ 16 % 2 ^ 16;
}

-- `InitializeIDT`, given `InterruptHandlerEntryTable` and the address of `AllTrapsEntry`.
unfoldable pub initialize_idt : (ℕ → ℕ) → ℕ → ℕ → InterruptDescriptor
initialize_idt entries traps i =
    if i == 0x80
    then gate traps 3
    else (if ltb i (exception_count + outeral_interrupt_count) then gate (entries i) 0 else no_gate)

-- The eight bytes of a gate as the compiler lays out the packed fields, as two words.
unfoldable pub gate_low : InterruptDescriptor → ℕ
gate_low g = g.offset_low + g.selector * 2 ^ 16

unfoldable pub gate_high : InterruptDescriptor → ℕ
gate_high g =
    g.reserved
    + g.type * 2 ^ 8
    + g.segment * 2 ^ 12
    + g.dpl * 2 ^ 13
    + g.present * 2 ^ 15
    + g.offset_high * 2 ^ 16
