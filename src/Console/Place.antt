-- ===== src/Console/Place.antt =====
-- Where kernel/console/console.c writes next: a place on the screen.
use gos_v.Common.{ℕ, ◌+◌, ◌-◌, ◌*◌, ◌<◌, ◌≤◌, ◌≡◌, inl, inr, ap, ◌∙◌, arith, leb, Bool-cases}
use gos_v.Utils.{memory_copy, memory_free}
use gos_v.Console.{
  Monitor, ConsoleColor, Writing, get_screen_address, monitor_base_address, monitor_size,
  screen_width, screen_high, screen_size, put_char, wrap_line, scroll, scroll_screen, move_position,
  write_char,
}
use gos_v.Console.Registers.{get-set_screen_address}

-- The screen begins at a line of the monitor's memory, at most the 78th, and the place is on it.
pub record OnScreen (w : Writing) : Type 0 where
  pub line : ℕ
  pub low : line ≤ 78
  pub screen : get_screen_address w.monitor ≡ monitor_base_address + 2 * (80 * line)
  pub on_row : w.row < screen_high
  pub on_col : w.col < screen_width
  pub position : w.current_position ≡ monitor_base_address + 2 * (80 * line + w.row * 80 + w.col)

pub put-screen :
    (color : ConsoleColor) (ch : ℕ) (w : Writing)
    → get_screen_address (put_char color ch w).monitor ≡ get_screen_address w.monitor
unfolding put_char get_screen_address
put-screen color ch w = ground arith

put_bounds :
    (color : ConsoleColor) (ch : ℕ) (w : Writing)
    → w.row < screen_high
    → w.col < screen_width
    → ((wrap_line (put_char color ch w)).row ≤ screen_high)
      × ((wrap_line (put_char color ch w)).col < screen_width)
unfolding put_char wrap_line
put_bounds color ch w h g = ground arith

pub wrap-monitor : (w : Writing) → (wrap_line w).monitor ≡ w.monitor
unfolding wrap_line
wrap-monitor w = ground arith

-- The whole screen to the start, and zeros behind it.
abbrev pub moved : Monitor → Monitor
moved m = record m {
  memory =
      memory_free (monitor_base_address + screen_size) (monitor_size - screen_size)
        (memory_copy monitor_base_address (get_screen_address m) screen_size m.memory);
}

-- The line where the screen begins after it has moved down.
scroll-screen :
    (m : Monitor) (k : ℕ)
    → k ≤ 78
    → get_screen_address m ≡ monitor_base_address + 2 * (80 * k)
    → (k' : ℕ) × (k' ≤ 78) × (get_screen_address (scroll m) ≡ monitor_base_address + 2 * (80 * k'))
unfolding scroll
scroll-screen m k h e =
    elim (Bool-cases
      (leb (monitor_base_address + monitor_size) (get_screen_address m + screen_size))) [
        | inl t ↦ (1, omega arith, rw t (get-set_screen_address (moved m) 80 (omega arith)))
        | inr t ↦
            let p : get_screen_address m + 160 ≡ monitor_base_address + 2 * (80 * (k + 1)) =
              omega (arith, e) in
            (k + 1, ground arith, rw (t, p) (get-set_screen_address m (80 * (k + 1)) (omega arith)))
      ]

-- A place after a line may have been left, before the screen moves.
pub record Below (w : Writing) : Type 0 where
  pub line : ℕ
  pub low : line ≤ 78
  pub screen : get_screen_address w.monitor ≡ monitor_base_address + 2 * (80 * line)
  pub on_row : w.row ≤ screen_high
  pub on_col : w.col < screen_width

pub put-Below :
    (color : ConsoleColor) (ch : ℕ) (w : Writing)
    → OnScreen w
    → Below (wrap_line (put_char color ch w))
put-Below color ch w s =
    let (r, c) = put_bounds color ch w s.on_row s.on_col in
    record {
      line = s.line;
      low = s.low;
      screen =
          ap get_screen_address (wrap-monitor (put_char color ch w))
          ∙ put-screen color ch w
          ∙ s.screen;
      on_row = r;
      on_col = c;
    }

move-OnScreen :
    (w : Writing) (k : ℕ)
    → k ≤ 78
    → get_screen_address w.monitor ≡ monitor_base_address + 2 * (80 * k)
    → w.row < screen_high
    → w.col < screen_width
    → OnScreen (move_position w)
unfolding move_position
move-OnScreen w k l e h g = record {
  line = k;
  low = l;
  screen = e;
  on_row = h;
  on_col = g;
  position = rw e (omega arith);
}

pub scroll-OnScreen : (w : Writing) → Below w → OnScreen (move_position (scroll_screen w))
unfolding scroll_screen
scroll-OnScreen w b = elim (Bool-cases (leb screen_high w.row)) [
  | inl t ↦
      let (k, l, e) = scroll-screen w.monitor b.line b.low b.screen in
      rw t (
        move-OnScreen (record w { monitor = scroll w.monitor; row = w.row - 1 }) k l e
          (omega (arith, b.on_row)) b.on_col)
  | inr t ↦ rw t (move-OnScreen w b.line b.low b.screen (ground arith) b.on_col)
]

pub write_char-OnScreen :
    (color : ConsoleColor) (ch : ℕ) (w : Writing) → OnScreen w → OnScreen (write_char color ch w)
unfolding write_char
write_char-OnScreen color ch w s = scroll-OnScreen _ (put-Below color ch w s)
