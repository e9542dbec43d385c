-- ===== src/Console/Tests.antt =====
-- Checks of kernel/console/console.c.
use gos_v.Common.{ℕ, ◌+◌, ◌*◌, ◌≡◌, refl, arith, List, [], ◌∷◌}
use gos_v.Console.{
  Monitor, console_write_with_color, get_cursor_address, get_screen_address, white, red,
  monitor_base_address,
}
use gos_v.Console.Screen.{IsShown, console_write-IsShown}
use gos_v.Console.Untouched.{Untouched}
use gos_v.Console.Line.{ArePrintable, Shows, console_write-Shows}

abbrev at_last_line : Monitor
at_last_line = record {
  screen_address_high = 0;
  screen_address_low = 80;
  cursor_address_high = 8;
  cursor_address_low = 30;
  memory = λ a. 0;
}

at_last_line-IsShown : IsShown at_last_line
unfolding get_screen_address get_cursor_address
at_last_line-IsShown = record {
  line = 1;
  row = 24;
  col = 78;
  low = omega arith;
  on_row = omega arith;
  on_col = omega arith;
  screen = refl;
  cursor = refl;
}

abbrev ok : List ℕ
ok = b'o' ∷ b'k' ∷ b'\n' ∷ []

console_write-IsShown_example :
    IsShown (console_write_with_color at_last_line ok 3 red).1
    × Untouched at_last_line (console_write_with_color at_last_line ok 3 red).1
console_write-IsShown_example = console_write-IsShown at_last_line ok 3 red at_last_line-IsShown

abbrev start : Monitor
start = record {
  screen_address_high = 0;
  screen_address_low = 80;
  cursor_address_high = 0;
  cursor_address_low = 83;
  memory = λ a. 0;
}

start-screen : get_screen_address start ≡ monitor_base_address + 2 * (80 * 1)
unfolding get_screen_address
start-screen = refl

start-cursor : get_cursor_address start ≡ monitor_base_address + 2 * (80 * 1 + 0 * 80 + 3)
unfolding get_cursor_address
start-cursor = refl

abbrev start-IsShown : IsShown start
start-IsShown = record {
  line = 1;
  row = 0;
  col = 3;
  low = omega arith;
  on_row = omega arith;
  on_col = omega arith;
  screen = start-screen;
  cursor = start-cursor;
}

abbrev hi : List ℕ
hi = b'h' ∷ b'i' ∷ []

hi-ArePrintable : ArePrintable hi
unfolding ArePrintable
hi-ArePrintable = (omega arith, omega arith, (omega arith, omega arith, tt))

console_write-Shows_example :
    Shows (console_write_with_color start hi 2 white).1.memory (get_cursor_address start) white hi
    × (get_cursor_address (console_write_with_color start hi 2 white).1
        ≡ get_cursor_address start + 2 * 2)
    × (get_screen_address (console_write_with_color start hi 2 white).1 ≡ get_screen_address start)
console_write-Shows_example =
    console_write-Shows start hi white start-IsShown refl hi-ArePrintable (omega arith)
