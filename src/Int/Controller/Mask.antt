-- ===== src/Int/Controller/Mask.antt =====
-- What kernel/int/interrupt_entry.c does to the masks of the interrupt controller.
use gos_v.Common.{
  ℕ, zero, suc, ◌-◌, ◌/◌, ◌<◌, ◌≤◌, ◌≡◌, refl, ap, ◌∙◌, arith, inl, inr, Bool, true, false,
  Bool-cases, ok, ◌==◌, leb, ltb, if◌then◌else◌, ◌&&◌, ◌||◌, eq→==,
}
use gos_v.Common.Bits.{clear_bit, has_bit, has_bit-clear_bit}
use gos_v.Int.Controller.{master_data, slave_data, unmask, set_interrupt}

clear_bit-le : (w k : ℕ) → clear_bit w k ≤ w
unfolding clear_bit
clear_bit-le w zero = omega arith
clear_bit-le w (suc k) = let h = clear_bit-le (w / 2) k in omega (arith, h)

-- In operation the data port of a chip reads its mask, which is the byte that was written there last.
pub record HasMasks {World : Type 0} (read_byte : ℕ → World → ℕ)
    (write_byte : ℕ → ℕ → World → World) : Type 0 where
  pub master_byte : (w : World) → read_byte master_data w < 256
  pub slave_byte : (w : World) → read_byte slave_data w < 256
  pub master_same :
      (v : ℕ) (w : World) → v < 256 → read_byte master_data (write_byte master_data v w) ≡ v
  pub slave_same :
      (v : ℕ) (w : World) → v < 256 → read_byte slave_data (write_byte slave_data v w) ≡ v
  pub master_other :
      (v : ℕ) (w : World)
      → read_byte master_data (write_byte slave_data v w) ≡ read_byte master_data w
  pub slave_other :
      (v : ℕ) (w : World)
      → read_byte slave_data (write_byte master_data v w) ≡ read_byte slave_data w

module _ {World : Type 0} (read_byte : ℕ → World → ℕ) (write_byte : ℕ → ℕ → World → World) where
  -- Whether the chip that an interrupt comes to has it masked.
  abbrev pub masked : ℕ → World → Bool
  masked vector w =
      if ltb vector 40
      then has_bit (read_byte master_data w) (vector - 32)
      else has_bit (read_byte slave_data w) (vector - 40)

  -- Whether the controllers keep an interrupt back: the second chip is on line 2 of the first, so that
  -- its interrupts have to pass there too.
  abbrev pub kept_back : ℕ → World → Bool
  kept_back vector w = masked vector w || (leb 40 vector && masked 34 w)

  unmask-masked :
      (h : HasMasks read_byte write_byte) (vector k : ℕ) (w : World)
      → 32 ≤ vector
      → vector < 48
      → 32 ≤ k
      → k < 48
      → masked k (unmask read_byte write_byte (vector - 32) w)
        ≡ (if k == vector then false else masked k w)
  unfolding unmask
  unmask-masked h vector k w a b c d = elim (Bool-cases (ltb vector 40)) [
    | inl x ↦
        let line : ltb (vector - 32) 8 ≡ true = ground (arith, x) in
        let v = clear_bit (read_byte master_data w) (vector - 32) in
        let s = clear_bit-le (read_byte master_data w) (vector - 32) in
        let m = h.master_byte w in
        let e = h.master_same v w (omega (arith, s, m)) in
        elim (Bool-cases (ltb k 40)) [
          | inl y ↦
              let t : (k - 32 == vector - 32) ≡ (k == vector) = ground (arith, a, c) in
              rw (line, y, e)
                (has_bit-clear_bit (read_byte master_data w) (vector - 32) (k - 32)
                  ∙ ap (λ z. if z then false else has_bit (read_byte master_data w) (k - 32)) t)
          | inr y ↦
              let n : (k == vector) ≡ false = ground (arith, x, y) in
              rw (line, y, n, h.slave_other v w) refl
        ]
    | inr x ↦
        let line : ltb (vector - 32) 8 ≡ false = ground (arith, x) in
        let v = clear_bit (read_byte slave_data w) (vector - 32 - 8) in
        let s = clear_bit-le (read_byte slave_data w) (vector - 32 - 8) in
        let m = h.slave_byte w in
        let e = h.slave_same v w (omega (arith, s, m)) in
        elim (Bool-cases (ltb k 40)) [
          | inl y ↦
              let n : (k == vector) ≡ false = ground (arith, x, y) in
              rw (line, y, n, h.master_other v w) refl
          | inr y ↦
              let t : (k - 40 == vector - 32 - 8) ≡ (k == vector) = ground (arith, x, y) in
              rw (line, y, e)
                (has_bit-clear_bit (read_byte slave_data w) (vector - 32 - 8) (k - 40)
                  ∙ ap (λ z. if z then false else has_bit (read_byte slave_data w) (k - 40)) t)
        ]
  ]

  unmask-kept_back :
      (h : HasMasks read_byte write_byte) (vector : ℕ) (w : World)
      → 32 ≤ vector
      → vector < 48
      → kept_back vector (unmask read_byte write_byte (vector - 32) w)
        ≡ (leb 40 vector && masked 34 w)
  unmask-kept_back h vector w a b =
      let own =
        unmask-masked h vector vector w a b a b
        ∙ ap (λ z. if z then false else masked vector w) (eq→== vector vector refl) in
      elim (Bool-cases (leb 40 vector)) [
        | inr x ↦ rw (own, x) refl
        | inl x ↦
            let n : (34 == vector) ≡ false = ground (arith, x) in
            rw (own, x)
              (unmask-masked h vector 34 w a b (omega arith) (omega arith)
                ∙ ap (λ z. if z then false else masked 34 w) n)
      ]

  -- Where the data ports of the chips hold their masks, `SetInterrupt` of a vector from 32 to 47 clears
  -- the mask of this interrupt in its chip and changes no other mask. The interrupt is then let pass
  -- if it is one of the first chip; one of the second, from 40 on, is kept back as long as the first
  -- chip masks its line 2, on which the second is.
  pub set_interrupt-masked :
      (h : HasMasks read_byte write_byte) (vector : ℕ) (w : World)
      → 32 ≤ vector
      → vector < 48
      → (w' : World) × (set_interrupt read_byte write_byte vector w ≡ ok w')
        × ((k : ℕ) → 32 ≤ k → k < 48 → masked k w' ≡ (if k == vector then false else masked k w))
        × (kept_back vector w' ≡ (leb 40 vector && masked 34 w))
  unfolding set_interrupt
  set_interrupt-masked h vector w a b =
      let x : leb 32 vector ≡ true = ground (arith, a) in
      let y : ltb vector 48 ≡ true = ground (arith, b) in
      (
        unmask read_byte write_byte (vector - 32) w,
        rw (x, y) refl,
        (λ k c d. unmask-masked h vector k w a b c d),
        unmask-kept_back h vector w a b,
      )
