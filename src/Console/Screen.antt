-- ===== src/Console/Screen.antt =====
-- Where kernel/console/console.c writes, and where the cursor stays.
use gos_v.Common.{
  refl, ℕ, zero, suc, ◌+◌, ◌-◌, ◌*◌, ◌/◌, ◌%◌, ◌^◌, ◌<◌, ◌≤◌, ◌≡◌, inl, inr, ◌∙◌, arith, ◌||◌, List,
  [], ◌∷◌, ◌==◌, Bool-cases,
}
use gos_v.Console.{
  Monitor, ConsoleColor, code_of, white, Writing, get_screen_address, get_cursor_address,
  get_cursor, set_cursor, monitor_base_address, screen_width, screen_high, write_char, write_loop,
  begin, write_plain, console_align_line, console_write_with_color, clear_screen,
  initialize_console, set_screen_address, set_cursor, get_cursor_address,
}
use gos_v.Console.Registers.{get_screen-set_cursor, get_cursor_address-set_cursor}
use gos_v.Console.Place.{OnScreen, write_char-OnScreen}
use gos_v.Console.Untouched.{
  Untouched, same, set_cursor-Untouched, Untouched-trans, write_char-Untouched,
}

loop-OnScreen :
    (color : ConsoleColor) (len : ℕ) (buf : List ℕ) (w : Writing)
    → OnScreen w
    → OnScreen (write_loop color len buf w)
      × Untouched w.monitor (write_loop color len buf w).monitor
unfolding write_loop
loop-OnScreen color zero buf w s = (s, same w.monitor)
loop-OnScreen color (suc len) [] w s =
    let (t, u) =
      loop-OnScreen color len [] (write_char color 0 w) (write_char-OnScreen color 0 w s) in
    (t, Untouched-trans w.monitor _ _ (write_char-Untouched color 0 w s) u)
loop-OnScreen color (suc len) (ch ∷ buf) w s =
    let (t, u) =
      loop-OnScreen color len buf (write_char color ch w) (write_char-OnScreen color ch w s) in
    (t, Untouched-trans w.monitor _ _ (write_char-Untouched color ch w s) u)

-- The registers tell a screen at a line of the memory, at most the 78th, and a cursor on it.
pub record IsShown (m : Monitor) : Type 0 where
  pub line : ℕ
  pub row : ℕ
  pub col : ℕ
  pub low : line ≤ 78
  pub on_row : row < screen_high
  pub on_col : col < screen_width
  pub screen : get_screen_address m ≡ monitor_base_address + 2 * (80 * line)
  pub cursor : get_cursor_address m ≡ monitor_base_address + 2 * (80 * line + row * 80 + col)

pub offset-cursor :
    (m : Monitor) (s : IsShown m)
    → (get_cursor_address m + (2 ^ 32 - get_screen_address m)) % 2 ^ 32 / 2 ≡ s.row * 80 + s.col
offset-cursor m s = omega (arith, s.cursor, s.screen, s.low, s.on_row, s.on_col)

pub begin-OnScreen : (m : Monitor) → IsShown m → OnScreen (begin m)
unfolding begin get_cursor
begin-OnScreen m s =
    let e = offset-cursor m s in
    record {
      line = s.line;
      low = s.low;
      screen = s.screen;
      on_row = rw e (omega (arith, s.on_row, s.on_col));
      on_col = omega arith;
      position = rw e (s.cursor ∙ omega (arith, s.on_row, s.on_col));
    }

shown : (w : Writing) → OnScreen w → IsShown (set_cursor w.monitor w.row w.col)
shown w s = record {
  line = s.line;
  row = w.row;
  col = w.col;
  low = s.low;
  on_row = s.on_row;
  on_col = s.on_col;
  screen = get_screen-set_cursor w.monitor w.row w.col ∙ s.screen;
  cursor =
      get_cursor_address-set_cursor w.monitor w.row w.col (80 * s.line) s.screen
        (omega (arith, s.low, s.on_row, s.on_col));
}

plain-IsShown :
    (m : Monitor) (buf : List ℕ) (len : ℕ) (color : ConsoleColor)
    → IsShown m
    → IsShown (write_plain m buf len color) × Untouched m (write_plain m buf len color)
unfolding write_plain begin
plain-IsShown m buf len color s =
    let (t, u) = loop-OnScreen color len buf (begin m) (begin-OnScreen m s) in
    (shown _ t, Untouched-trans m _ _ u (set_cursor-Untouched _ _ _))

pub align-IsShown :
    (m : Monitor) → IsShown m → IsShown (console_align_line m) × Untouched m (console_align_line m)
unfolding console_align_line
align-IsShown m s = elim (Bool-cases ((get_cursor m).col == 0)) [
  | inl e ↦ rw e (s, same m)
  | inr e ↦ rw e (plain-IsShown m (0x0a ∷ []) 1 white s)
]

-- `ConsoleWriteWithColor` of any characters in any color keeps the cursor on the screen and the screen
-- at a line of the monitor's memory, and writes nowhere but in the 103 lines from its start, which end
-- 96 bytes behind `MonitorSize`.
pub console_write-IsShown :
    (m : Monitor) (buf : List ℕ) (len : ℕ) (color : ConsoleColor)
    → IsShown m
    → IsShown (console_write_with_color m buf len color).1
      × Untouched m (console_write_with_color m buf len color).1
unfolding console_write_with_color
console_write-IsShown m buf len color s =
    elim (Bool-cases ((code_of color == 7) || (code_of color == 9))) [
      | inl e ↦ rw e (plain-IsShown m buf len color s)
      | inr e ↦
          let (t, u) = align-IsShown m s in
          let (x, y) = plain-IsShown (console_align_line m) buf len color t in
          rw e (x, Untouched-trans m _ _ u y)
    ]

-- The screen and the cursor as `InitializeConsole` leaves them.
pub initialize-IsShown : (m : Monitor) → IsShown (initialize_console m)
unfolding initialize_console clear_screen set_cursor set_screen_address get_screen_address
    get_cursor_address
initialize-IsShown m = record {
  line = 0;
  row = 0;
  col = 0;
  low = omega arith;
  on_row = omega arith;
  on_col = omega arith;
  screen = refl;
  cursor = refl;
}
