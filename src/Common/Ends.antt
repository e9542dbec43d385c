-- ===== src/Common/Ends.antt =====
-- How a kernel function ends: with a value, in `Panic` (which suspends the machine), or in a loop
-- that is still running when its fuel is used up.
infixl 5 ◌>>=◌
pub data Outcome {ℓ} (A : Type ℓ) : Type ℓ where
  ok : A → Outcome A
  panic : Outcome A
  hang : Outcome A

-- The next step runs only after a step that returned.
abbrev pub ◌>>=◌ {u v} : {X : Type u} {Y : Type v} → Outcome X → (X → Outcome Y) → Outcome Y
hang >>= next = hang
panic >>= next = panic
ok x >>= next = next x
