-- ===== src/Int/Controller.antt =====
-- kernel/int/interrupt_entry.c: the interrupt controller and the table of handlers. The instructions
-- that read and write a port work on a world that is a parameter. The messages of the exceptions are
-- not modelled.
pub mod Mask
mod Tests
use gos_v.Common.{
  ℕ, ◌+◌, ◌-◌, Bool, true, false, ◌&&◌, Outcome, ok, panic, ◌==◌, leb, ltb, if◌then◌else◌,
}
use gos_v.Common.Bits.{clear_bit}
use gos_v.Int.Idt.{exception_count, outeral_interrupt_count}

-- The ports of the two chips.
abbrev pub master_command : ℕ
master_command = 0x20

abbrev pub master_data : ℕ
master_data = 0x21

abbrev pub slave_command : ℕ
slave_command = 0xa0

abbrev pub slave_data : ℕ
slave_data = 0xa1

-- An entry of `InterruptHandlerList`: one of the two defaults, or the address of a function.
pub data Handler : Type 0 where
  default_exception default_outeral : Handler
  function : ℕ → Handler

abbrev pub Handlers : Type 0
Handlers = ℕ → Handler

unfoldable pub init_default_interrupt_handler : Handlers → Handlers
init_default_interrupt_handler handlers i =
    if ltb i exception_count
    then default_exception
    else if ltb i (exception_count + outeral_interrupt_count)
    then default_outeral
    else handlers i

unfoldable pub set_interrupt_handler : ℕ → Handler → Handlers → Handlers
set_interrupt_handler vector handler handlers i = if i == vector then handler else handlers i

module _ {World : Type 0} (read_byte : ℕ → World → ℕ) (write_byte : ℕ → ℕ → World → World) where
  -- The command words of both chips; all interrupts are masked in the end.
  unfoldable pub init_programmable_interrupt_controller : World → World
  init_programmable_interrupt_controller w =
      let w1 = write_byte slave_command 0x11 (write_byte master_command 0x11 w) in
      let w2 = write_byte slave_data 0x28 (write_byte master_data 0x20 w1) in
      let w3 = write_byte slave_data 0x02 (write_byte master_data 0x04 w2) in
      let w4 = write_byte slave_data 0x01 (write_byte master_data 0x01 w3) in
      write_byte slave_data 0xff (write_byte master_data 0xff w4)

  -- The bit of a line in the mask of its chip is cleared.
  unfoldable pub unmask : ℕ → World → World
  unmask line w =
      if ltb line 8
      then write_byte master_data (clear_bit (read_byte master_data w) line) w
      else write_byte slave_data (clear_bit (read_byte slave_data w) (line - 8)) w

  unfoldable pub set_interrupt : ℕ → World → Outcome World
  set_interrupt vector w =
      if leb exception_count vector && ltb vector (exception_count + outeral_interrupt_count)
      then ok (unmask (vector - exception_count) w)
      else panic

  unfoldable pub outeral_interrupt_completed : ℕ → World → World
  outeral_interrupt_completed vector w =
      write_byte master_command 0x20
        (if leb 0x28 vector then write_byte slave_command 0x20 w else w)
