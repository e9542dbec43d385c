-- ===== src/Print/Log/Stores.antt =====
-- What the stores of `%n` of kernel/lib/print.c leave of the memory of the monitor.
use gos_v.Common.{
  ℕ, ◌+◌, ◌<◌, ◌≤◌, ◌≡◌, ◌⊎◌, refl, ◌∙◌, arith, ◌&&◌, leb, List, [], ◌∷◌, false, ◌++◌, ltb,
}
use gos_v.Console.{monitor_base_address, get_screen_address, get_cursor_address, Monitor}
use gos_v.Console.Screen.{IsShown}
use gos_v.Console.Untouched.{Untouched, last_byte}
use gos_v.Utils.{Bytes}
use gos_v.Print.Log.{store_word, stored, with_stores}

-- An address that none of the stores reaches.
unfoldable pub Spared : ℕ → List (ℕ × ℕ) → Type 0
Spared a [] = Unit {0}
Spared a ((p, v) ∷ stores) = ((a < p) ⊎ (p + 4 ≤ a)) × Spared a stores

-- Outside the 103 lines of the screen, and where no store has reached, the memory is as it was.
unfoldable pub Kept : List (ℕ × ℕ) → Monitor → Monitor → Type 0
Kept stores m m' =
    (a : ℕ)
    → (a < monitor_base_address) ⊎ (last_byte ≤ a)
    → Spared a stores
    → m'.memory a ≡ m.memory a

Spared-append : (a : ℕ) (xs ys : List (ℕ × ℕ)) → Spared a (xs ++ ys) → Spared a xs × Spared a ys
unfolding Spared
Spared-append a [] ys s = (tt, s)
Spared-append a ((p, v) ∷ xs) ys (h, s) = let (x, y) = Spared-append a xs ys s in ((h, x), y)

pub Kept-append :
    (xs ys : List (ℕ × ℕ)) (m n k : Monitor) → Kept ys m n → Kept xs n k → Kept (xs ++ ys) m k
unfolding Kept
Kept-append xs ys m n k h g = λ a o s. let (x, y) = Spared-append a xs ys s in g a o x ∙ h a o y

stored-Spared :
    (stores : List (ℕ × ℕ)) (f : Bytes) (a : ℕ) → Spared a stores → stored stores f a ≡ f a
unfolding Spared stored store_word
stored-Spared [] f a s = refl
stored-Spared ((p, v) ∷ stores) f a (h, s) =
    let e : (leb p a && ltb a (p + 4)) ≡ false = ground (arith, h) in
    rw e (stored-Spared stores f a s)

-- The console after the stores, and what is then written on it.
pub with_stores-IsShown :
    (stores : List (ℕ × ℕ)) (m : Monitor) → IsShown m → IsShown (with_stores stores m)
unfolding get_screen_address get_cursor_address
with_stores-IsShown stores m s = record {
  line = s.line;
  row = s.row;
  col = s.col;
  low = s.low;
  on_row = s.on_row;
  on_col = s.on_col;
  screen = s.screen;
  cursor = s.cursor;
}

pub with_stores-Kept :
    (stores : List (ℕ × ℕ)) (m n : Monitor) → Untouched (with_stores stores m) n → Kept stores m n
unfolding Kept Untouched
with_stores-Kept stores m n u = λ a o s. u a o ∙ stored-Spared stores m.memory a s
