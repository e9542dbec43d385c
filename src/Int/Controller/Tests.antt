-- ===== src/Int/Controller/Tests.antt =====
-- Interrupts that are let pass.
use gos_v.Common.{ℕ, ◌%◌, ◌<◌, ◌≤◌, ◌≡◌, refl, arith, false, ok, ◌==◌, if◌then◌else◌}
use gos_v.Int.Controller.{
  set_interrupt, set_interrupt_handler, init_default_interrupt_handler, default_exception,
  default_outeral, function,
}
use gos_v.Int.Controller.Mask.{HasMasks, masked, kept_back, set_interrupt-masked}

-- The world is the two masks.
abbrev read_byte : ℕ → ℕ × ℕ → ℕ
read_byte port (m, s) = (if port == 0x21 then m else s) % 256

abbrev write_byte : ℕ → ℕ → ℕ × ℕ → ℕ × ℕ
write_byte port v (m, s) = if port == 0x21 then (v, s) else (m, v)

masks : HasMasks read_byte write_byte
masks = record {
  master_byte = λ (m, s). omega arith;
  slave_byte = λ (m, s). omega arith;
  master_same = λ v (m, s) l. omega (arith, l);
  slave_same = λ v (m, s) l. omega (arith, l);
  master_other = λ v (m, s). refl;
  slave_other = λ v (m, s). refl;
}

-- The keyboard, where everything is kept back.
set_interrupt-masked_example :
    (w' : ℕ × ℕ) × (set_interrupt read_byte write_byte 33 (255, 255) ≡ ok w')
    × ((k : ℕ)
        → 32 ≤ k
        → k < 48
        → masked read_byte write_byte k w'
          ≡ (if k == 33 then false else masked read_byte write_byte k (255, 255)))
    × (kept_back read_byte write_byte 33 w' ≡ false)
set_interrupt-masked_example =
    set_interrupt-masked read_byte write_byte masks 33 (255, 255) (omega arith) (omega arith)

defaults :
    (set_interrupt_handler 33 (function 7) (init_default_interrupt_handler (λ i. function 0)) 33
      ≡ function 7)
    × (set_interrupt_handler 33 (function 7) (init_default_interrupt_handler (λ i. function 0)) 32
        ≡ default_outeral)
    × (init_default_interrupt_handler (λ i. function 0) 14 ≡ default_exception)
unfolding set_interrupt_handler init_default_interrupt_handler
defaults = (refl, refl, refl)
