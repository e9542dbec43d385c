-- ===== src/Console/Registers.antt =====
-- The offsets that kernel/console/console.c keeps in the monitor's registers.
use gos_v.Common.{ℕ, ◌+◌, ◌*◌, ◌^◌, ◌<◌, ◌≡◌, refl, arith}
use gos_v.Console.{
  Monitor, get_screen_address, set_screen_address, get_cursor_address, set_cursor,
  monitor_base_address, screen_width,
}

-- A character's address that the sixteen bits of an offset reach.
pub get-set_screen_address :
    (m : Monitor) (o : ℕ)
    → o < 2 ^ 16
    → get_screen_address (set_screen_address m (monitor_base_address + 2 * o))
      ≡ monitor_base_address + 2 * o
unfolding get_screen_address set_screen_address
get-set_screen_address m o h = omega arith

pub get_screen-set_cursor :
    (m : Monitor) (row col : ℕ) → get_screen_address (set_cursor m row col) ≡ get_screen_address m
unfolding set_cursor get_screen_address
get_screen-set_cursor m row col = refl

pub get_cursor_address-set_cursor :
    (m : Monitor) (row col o : ℕ)
    → get_screen_address m ≡ monitor_base_address + 2 * o
    → o + row * screen_width + col < 2 ^ 16
    → get_cursor_address (set_cursor m row col)
      ≡ monitor_base_address + 2 * (o + row * screen_width + col)
unfolding set_cursor get_cursor_address
get_cursor_address-set_cursor m row col o e h = rw e (omega arith)
