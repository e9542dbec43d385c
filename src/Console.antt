-- ===== src/Console.antt =====
-- kernel/console/console.c: the text screen.
-- The ports of the monitor are four bytes, which hold the offsets of screen and cursor in characters.
pub mod Registers
pub mod Place
pub mod Untouched
pub mod Screen
pub mod Line
mod Tests
use gos_v.Common.{
  ℕ, zero, suc, ◌+◌, ◌-◌, ◌*◌, ◌/◌, ◌%◌, ◌^◌, Bool, true, false, not, ◌&&◌, ◌||◌, List, [], ◌∷◌,
  ◌==◌, leb, ltb, if◌then◌else◌,
}
use gos_v.Utils.{Bytes, store, memory_copy, memory_free}

-- `ConsoleColor`
pub data ConsoleColor : Type 0 where
  black blue green cyan red purple yellow white : ConsoleColor
  gray light_blue light_green light_cyan light_red light_purple light_yellow bright_white :
      ConsoleColor

abbrev pub code_of : ConsoleColor → ℕ
code_of black = 0
code_of blue = 1
code_of green = 2
code_of cyan = 3
code_of red = 4
code_of purple = 5
code_of yellow = 6
code_of white = 7
code_of gray = 8
code_of light_blue = 9
code_of light_green = 10
code_of light_cyan = 11
code_of light_red = 12
code_of light_purple = 13
code_of light_yellow = 14
code_of bright_white = 15

abbrev pub monitor_base_address : ℕ
monitor_base_address = 0xb8000

abbrev pub monitor_size : ℕ
monitor_size = 0x4000

abbrev pub screen_width_byte : ℕ
screen_width_byte = 160

abbrev pub screen_width : ℕ
screen_width = 80

abbrev pub screen_high : ℕ
screen_high = 25

abbrev pub screen_size : ℕ
screen_size = 4000

-- The registers 0xC to 0xF of the monitor, and the memory.
pub record Monitor : Type 0 where
  pub screen_address_high : ℕ
  pub screen_address_low : ℕ
  pub cursor_address_high : ℕ
  pub cursor_address_low : ℕ
  pub memory : Bytes

-- `struct Cursor`
pub record Cursor : Type 0 where
  pub row : ℕ
  pub col : ℕ

-- The low byte is below 256, so that `|` is addition.
unfoldable pub get_screen_address : Monitor → ℕ
get_screen_address m =
    (m.screen_address_high * 2 ^ 8 + m.screen_address_low) * 2 + monitor_base_address

unfoldable pub set_screen_address : Monitor → ℕ → Monitor
set_screen_address m address =
    let offset = (address + (2 ^ 32 - monitor_base_address)) % 2 ^ 32 / 2 in
    record m { screen_address_high = offset / 2 ^ 8 % 2 ^ 8; screen_address_low = offset % 2 ^ 8 }

unfoldable pub get_cursor_address : Monitor → ℕ
get_cursor_address m =
    (m.cursor_address_high * 2 ^ 8 + m.cursor_address_low) * 2 + monitor_base_address

unfoldable pub get_cursor : Monitor → Cursor
get_cursor m =
    let offset = (get_cursor_address m + (2 ^ 32 - get_screen_address m)) % 2 ^ 32 / 2 in
    record { row = offset / screen_width; col = offset % screen_width }

unfoldable pub set_cursor : Monitor → ℕ → ℕ → Monitor
set_cursor m row col =
    let address = (get_screen_address m + (row * screen_width + col) * 2) % 2 ^ 32 in
    let offset = (address + (2 ^ 32 - monitor_base_address)) % 2 ^ 32 / 2 in
    record m { cursor_address_high = offset / 2 ^ 8 % 2 ^ 8; cursor_address_low = offset % 2 ^ 8 }

-- A `u16` is written low byte first.
abbrev pub store_cell : Bytes → ℕ → ℕ → Bytes
store_cell memory address v = store (store memory address (v % 2 ^ 8)) (address + 1) (v / 2 ^ 8)

-- `(u16)(color << 8 | ch)`: a `char` is signed, so that one from 128 on sets the upper byte.
abbrev pub cell : ConsoleColor → ℕ → ℕ
cell color ch = if ltb ch 128 then code_of color * 2 ^ 8 + ch else 0xff00 + ch

-- Where `ConsoleWriteWithColor` is: the monitor and its local variables.
pub record Writing : Type 0 where
  pub monitor : Monitor
  pub current_position : ℕ
  pub row : ℕ
  pub col : ℕ

abbrev pub write_cell : Monitor → ℕ → ℕ → Monitor
write_cell m address v = record m { memory = store_cell m.memory address v }

-- The first `if`, on the character.
unfoldable pub put_char : ConsoleColor → ℕ → Writing → Writing
put_char color ch w =
    if ch == 0x08
    then (if ltb 0 w.col
        then record w {
          col = w.col - 1;
          monitor = write_cell w.monitor (w.current_position - 2) (cell color 0x20);
        }
        else w)
    else if ch == 0x09
    then record w { col = if leb screen_width (w.col + 4) then screen_width - 1 else w.col + 4 }
    else if ch == 0x0a
    then record w { row = w.row + 1; col = 0 }
    else if ch == 0x0d
    then record w { col = 0 }
    else record w {
      monitor = write_cell w.monitor w.current_position (cell color ch);
      col = w.col + 1;
    }

unfoldable pub wrap_line : Writing → Writing
wrap_line w = if leb screen_width w.col then record w { col = 0; row = w.row + 1 } else w

-- The screen moves down by a line; at the end of the monitor's memory it begins again at its start.
unfoldable pub scroll : Monitor → Monitor
scroll m =
    let screen = get_screen_address m in
    if leb (monitor_base_address + monitor_size) (screen + screen_size)
    then set_screen_address
        (record m {
          memory =
              memory_free (monitor_base_address + screen_size) (monitor_size - screen_size)
                (memory_copy monitor_base_address screen screen_size m.memory);
        })
        (monitor_base_address + screen_width_byte)
    else set_screen_address m (screen + screen_width_byte)

unfoldable pub scroll_screen : Writing → Writing
scroll_screen w =
    if leb screen_high w.row then record w { monitor = scroll w.monitor; row = w.row - 1 } else w

unfoldable pub move_position : Writing → Writing
move_position w = record w {
  current_position =
      (get_screen_address w.monitor + w.row * screen_width_byte + w.col * 2) % 2 ^ 32;
}

-- One round of the loop.
unfoldable pub write_char : ConsoleColor → ℕ → Writing → Writing
write_char color ch w = move_position (scroll_screen (wrap_line (put_char color ch w)))

-- `while (len--)`; a read past the end of the buffer's object gives NUL.
unfoldable pub write_loop : ConsoleColor → ℕ → List ℕ → Writing → Writing
write_loop color zero buf w = w
write_loop color (suc len) [] w = write_loop color len [] (write_char color 0 w)
write_loop color (suc len) (ch ∷ buf) w = write_loop color len buf (write_char color ch w)

unfoldable pub begin : Monitor → Writing
begin m =
    let cursor = get_cursor m in
    record {
      monitor = m;
      current_position = get_cursor_address m;
      row = cursor.row;
      col = cursor.col;
    }

-- `ConsoleWriteWithColor` from the cursor on, as it is for white and light blue.
unfoldable pub write_plain : Monitor → List ℕ → ℕ → ConsoleColor → Monitor
write_plain m buf len color =
    let w = write_loop color len buf (begin m) in set_cursor w.monitor w.row w.col

unfoldable pub console_align_line : Monitor → Monitor
console_align_line m = if (get_cursor m).col == 0 then m else write_plain m (0x0a ∷ []) 1 white

-- It returns `len` as the loop leaves it.
unfoldable pub console_write_with_color : Monitor → List ℕ → ℕ → ConsoleColor → ℕ × Monitor
console_write_with_color m buf len color = (
  2 ^ 32 - 1,
  write_plain (if (code_of color == 7) || (code_of color == 9) then m else console_align_line m) buf
      len color,
)

unfoldable pub fill_cells : ℕ → ℕ → Bytes → Bytes
fill_cells zero address memory = memory
fill_cells (suc n) address memory = fill_cells n (address + 2) (store_cell memory address 0x0720)

unfoldable pub clear_screen : Monitor → Monitor
clear_screen m = record m { memory = fill_cells (monitor_size / 2) monitor_base_address m.memory }

unfoldable pub initialize_console : Monitor → Monitor
initialize_console m = clear_screen (set_cursor (set_screen_address m monitor_base_address) 0 0)
