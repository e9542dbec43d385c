-- ===== src/Console/Untouched.antt =====
-- Where kernel/console/console.c writes.
use gos_v.Common.{
  ℕ, ◌+◌, ◌-◌, ◌*◌, ◌<◌, ◌≤◌, ◌≡◌, ◌⊎◌, inl, inr, refl, subst, sym, ◌∙◌, arith, Bool, true, false,
  ◌||◌, ◌==◌, leb, ltb, if◌then◌else◌, Bool-cases,
}
use gos_v.Utils.{memory_copy}
use gos_v.Utils.Memory.{memory_copy_lem, memory_free-memory_set, memory_set_lem}
use gos_v.Console.{
  Monitor, ConsoleColor, Writing, cell, write_cell, get_screen_address, set_screen_address,
  set_cursor, monitor_base_address, monitor_size, screen_high, screen_size, screen_width_byte,
  put_char, wrap_line, scroll, scroll_screen, move_position, write_char,
}
use gos_v.Console.Place.{OnScreen, Below, wrap-monitor, moved, put-Below}

-- The end of the 103 lines that the screen can show.
abbrev pub last_byte : ℕ
last_byte = monitor_base_address + 103 * 160

-- The memory outside these lines is as it was.
unfoldable pub Untouched : Monitor → Monitor → Type 0
Untouched m m' = (a : ℕ) → (a < monitor_base_address) ⊎ (last_byte ≤ a) → m'.memory a ≡ m.memory a

cell-Untouched :
    (m : Monitor) (p v : ℕ)
    → monitor_base_address ≤ p
    → p + 1 < last_byte
    → Untouched m (write_cell m p v)
unfolding Untouched
cell-Untouched m p v h g = λ a o. ground arith

either :
    (m x y : Monitor) (b : Bool) → Untouched m x → Untouched m y → Untouched m (if b then x else y)
either m x y true p q = p
either m x y false p q = q

pub same : (m : Monitor) → Untouched m m
unfolding Untouched
same m = λ a o. refl

put-monitor :
    (color : ConsoleColor) (ch : ℕ) (w : Writing)
    → (put_char color ch w).monitor ≡ (
        if ch == 0x08
        then (if ltb 0 w.col
            then write_cell w.monitor (w.current_position - 2) (cell color 0x20)
            else w.monitor)
        else (if (ch == 0x09) || ((ch == 0x0a) || (ch == 0x0d))
            then w.monitor
            else write_cell w.monitor w.current_position (cell color ch)))
unfolding put_char
put-monitor color ch w = ground arith

back-Untouched :
    (color : ConsoleColor) (w : Writing)
    → OnScreen w
    → Untouched w.monitor (
        if ltb 0 w.col
        then write_cell w.monitor (w.current_position - 2) (cell color 0x20)
        else w.monitor)
back-Untouched color w s = elim (Bool-cases (ltb 0 w.col)) [
  | inl e ↦ rw e (
      cell-Untouched w.monitor (w.current_position - 2) (cell color 0x20)
        (ground (arith, s.position, s.low, s.on_row))
        (ground (arith, s.position, s.low, s.on_row, s.on_col)))
  | inr e ↦ rw e (same w.monitor)
]

put-Untouched :
    (color : ConsoleColor) (ch : ℕ) (w : Writing)
    → OnScreen w
    → Untouched w.monitor (put_char color ch w).monitor
put-Untouched color ch w s = subst (Untouched w.monitor) (sym (put-monitor color ch w)) (
    either w.monitor _ _ (ch == 0x08) (back-Untouched color w s) (
      either w.monitor _ _ ((ch == 0x09) || ((ch == 0x0a) || (ch == 0x0d))) (same w.monitor) (
        cell-Untouched w.monitor w.current_position (cell color ch) (omega (arith, s.position))
          (omega (arith, s.position, s.low, s.on_row, s.on_col)))))

pub set_screen-Untouched : (m : Monitor) (address : ℕ) → Untouched m (set_screen_address m address)
unfolding Untouched set_screen_address
set_screen-Untouched m address = λ a o. refl

moved-Untouched :
    (m : Monitor) → monitor_base_address ≤ get_screen_address m → Untouched m (moved m)
unfolding Untouched
moved-Untouched m h = λ a o.
    rw
      (memory_free-memory_set (monitor_base_address + screen_size) (monitor_size - screen_size)
        (memory_copy monitor_base_address (get_screen_address m) screen_size m.memory))
      (ground (
        arith,
        memory_set_lem (monitor_base_address + screen_size) 0 (monitor_size - screen_size)
            (memory_copy monitor_base_address (get_screen_address m) screen_size m.memory) a,
        memory_copy_lem monitor_base_address (get_screen_address m) screen_size m.memory a (inl h),
      ))

scroll-Untouched :
    (m : Monitor) → monitor_base_address ≤ get_screen_address m → Untouched m (scroll m)
unfolding Untouched scroll set_screen_address
scroll-Untouched m h =
    either m _ _ (leb (monitor_base_address + monitor_size) (get_screen_address m + screen_size))
      (moved-Untouched m h) (set_screen-Untouched m (get_screen_address m + screen_width_byte))

pub Untouched-trans : (m n o : Monitor) → Untouched m n → Untouched n o → Untouched m o
unfolding Untouched
Untouched-trans m n o p q = λ a h. q a h ∙ p a h

scroll_screen-Untouched :
    (w : Writing) → Below w → Untouched w.monitor (move_position (scroll_screen w)).monitor
unfolding scroll_screen move_position
scroll_screen-Untouched w b = elim (Bool-cases (leb screen_high w.row)) [
  | inl t ↦ rw t (scroll-Untouched w.monitor (omega (arith, b.screen)))
  | inr t ↦ rw t (same w.monitor)
]

pub write_char-Untouched :
    (color : ConsoleColor) (ch : ℕ) (w : Writing)
    → OnScreen w
    → Untouched w.monitor (write_char color ch w).monitor
unfolding write_char
write_char-Untouched color ch w s =
    Untouched-trans w.monitor (wrap_line (put_char color ch w)).monitor _
      (subst (Untouched w.monitor) (sym (wrap-monitor (put_char color ch w)))
        (put-Untouched color ch w s))
      (scroll_screen-Untouched _ (put-Below color ch w s))

pub set_cursor-Untouched : (m : Monitor) (row col : ℕ) → Untouched m (set_cursor m row col)
unfolding Untouched set_cursor
set_cursor-Untouched m row col = λ a o. refl
