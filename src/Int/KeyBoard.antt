-- ===== src/Int/KeyBoard.antt =====
-- kernel/int/key_board.c: the keyboard's interrupt handler, `ReadChar` and `ReadLine`.
pub mod Typing
pub mod Line
pub mod Edit
mod Tests
use gos_v.Common.{
  ℕ, ◌+◌, ◌-◌, ◌%◌, Bool, true, false, not, ◌&&◌, ◌||◌, List, [], ◌∷◌, Option, none, some, Outcome,
  ok, panic, hang, ◌==◌, leb, ltb, if◌then◌else◌, get_or,
}
use gos_v.Common.Bits.{has_bit}
use gos_v.Int.KeyMap.{null_char, keymap_chars}
use gos_v.Utils.{Bytes, store, is_lower}

-- `KEY_CTRL_L`, `KEY_SHIFT_L`, `KEY_SHIFT_R` and `KEY_SLASH`
abbrev pub key_ctrl_l : ℕ
key_ctrl_l = 0x1d

abbrev pub key_shift_l : ℕ
key_shift_l = 0x2a

abbrev pub key_shift_r : ℕ
key_shift_r = 0x36

abbrev pub key_slash : ℕ
key_slash = 0x35

-- `BS`
abbrev pub bs : ℕ
bs = 8

-- What the handler prints: a character, or `^` and a character.
pub data Printed : Type 0 where
  char control : ℕ → Printed

-- The static variables. `held ext` is the column `ext` of `keymap` for the keys, extended (column 3)
-- or not (column 2); the first two columns are never written. `buffer` is the memory from
-- `globalBuffer` on, which is null unless `reading`; `printed` is the output, last first.
pub record KeyBoard : Type 0 where
  pub chars : ℕ → ℕ × ℕ
  pub held : Bool → ℕ → Bool
  pub capslock_state : Bool
  pub extcode_state : Bool
  pub reading : Bool
  pub buffer : Bytes
  pub buffer_length : ℕ
  pub global_char : ℕ
  pub printed : List Printed

abbrev pub set_held : (Bool → ℕ → Bool) → Bool → ℕ → Bool → Bool → ℕ → Bool
set_held held true key v true k = if k == key then v else held true k
set_held held true key v false k = held false k
set_held held false key v true k = held true k
set_held held false key v false k = if k == key then v else held false k

-- The rows of the table; a make code of seven bits can lie behind it.
abbrev pub table_chars : (ℕ → ℕ × ℕ) → ℕ → ℕ × ℕ
table_chars behind k = if ltb k 95 then get_or keymap_chars k (null_char, null_char) else behind k

pub initialize_keyboard : (ℕ → ℕ × ℕ) → KeyBoard → KeyBoard
initialize_keyboard behind s = record s {
  chars = table_chars behind;
  capslock_state = false;
  extcode_state = false;
  reading = false;
  buffer_length = 0;
  global_char = null_char;
}

-- `CtrlState` and `shiftState`
unfoldable pub ctrl_state : KeyBoard → Bool
ctrl_state s = s.held false key_ctrl_l || s.held true key_ctrl_l

unfoldable pub shift_state : KeyBoard → Bool
shift_state s = s.held false key_shift_l || s.held false key_shift_r

abbrev pub flip_if : Bool → Bool → Bool
flip_if true b = not b
flip_if false b = b

-- The local `shift`.
unfoldable pub shifted : KeyBoard → ℕ → Bool
shifted s key =
    flip_if (shift_state s) (flip_if (s.capslock_state && is_lower (s.chars key).0) false)

-- The local `ch`.
unfoldable pub char_of : KeyBoard → Bool → ℕ → ℕ
char_of s ext key =
    if ext && not (key == key_slash)
    then (s.chars key).1
    else (if shifted s key then (s.chars key).1 else (s.chars key).0)

-- The write into the buffer of `ReadLine`: a backspace takes the last character away.
unfoldable pub write_buffer : KeyBoard → ℕ → KeyBoard
write_buffer s ch =
    if s.reading
    then (if ch == bs && leb 1 s.buffer_length
        then record s { buffer_length = s.buffer_length - 1 }
        else record s {
          buffer = store s.buffer s.buffer_length ch;
          buffer_length = s.buffer_length + 1;
        })
    else s

-- The end of the handler, with the key's character.
unfoldable pub type_char : KeyBoard → ℕ → KeyBoard
type_char s ch =
    if ch == null_char
    then s
    else (if ctrl_state s && is_lower ch
        then record s { printed = control ch ∷ s.printed }
        else record (write_buffer (record s { printed = char ch ∷ s.printed }) ch) {
          global_char = ch;
        })

-- A scan code with bit 7 says that the key is let go.
unfoldable pub handle_key : KeyBoard → Bool → ℕ → KeyBoard
handle_key s ext scancode =
    let key = scancode % 128 in
    if has_bit scancode 7
    then record s { held = set_held s.held ext key false }
    else (let s = record s { held = set_held s.held ext key true } in
        type_char s (char_of s ext key))

-- `keyboardHandler`, given the byte that the port gives.
unfoldable pub keyboard_handler : KeyBoard → ℕ → KeyBoard
keyboard_handler s scancode =
    if scancode == 0xe0
    then record s { extcode_state = true }
    else (if s.extcode_state
        then handle_key (record s { extcode_state = false }) true scancode
        else handle_key s false scancode)

unfoldable pub take_char : KeyBoard → List ℕ → Outcome (ℕ × KeyBoard × List ℕ)
take_char s codes = ok (s.global_char, record s { global_char = null_char }, codes)

-- `ReadChar`, given the bytes that the port will give: it waits for a character. The result is the
-- character, the state and the bytes that are left; the wait hangs when there are no more.
unfoldable pub read_char : List ℕ → KeyBoard → Outcome (ℕ × KeyBoard × List ℕ)
read_char [] s = if s.global_char == null_char then hang else take_char s []
read_char (c ∷ cs) s =
    let rest = read_char cs (keyboard_handler s c) in
    if s.global_char == null_char then rest else take_char s (c ∷ cs)

-- A line is complete: `globalBufferLength` is not 0 and the last character is the line feed.
unfoldable pub complete : KeyBoard → Bool
complete s = not (s.buffer_length == 0) && s.buffer (s.buffer_length - 1) == b'\n'

-- The line feed gives way to the end of the string, and the buffer is given up.
abbrev pub end_line : KeyBoard → KeyBoard
end_line s = record s {
  buffer = store s.buffer (s.buffer_length - 1) 0;
  reading = false;
  buffer_length = 0;
}

unfoldable pub finish_line : KeyBoard → List ℕ → Outcome (ℕ × KeyBoard × List ℕ)
finish_line s codes = ok (s.buffer_length - 1, end_line s, codes)

-- A line that is too long is thrown away, and the reading begins again.
abbrev pub restart : KeyBoard → KeyBoard
restart s = if complete s then record s { buffer_length = 0 } else s

-- The wait of `ReadLine`, and what follows it.
unfoldable pub wait_line : ℕ → List ℕ → KeyBoard → Outcome (ℕ × KeyBoard × List ℕ)
wait_line len [] s = if complete s && leb s.buffer_length len then finish_line s [] else hang
wait_line len (c ∷ cs) s =
    let rest = wait_line len cs (keyboard_handler (restart s) c) in
    if complete s && leb s.buffer_length len then finish_line s (c ∷ cs) else rest

-- `ReadLine` into the memory `buf`.
pub read_line : Bytes → ℕ → List ℕ → KeyBoard → Outcome (ℕ × KeyBoard × List ℕ)
read_line buf len codes s =
    if ltb 1024 len
    then ok (0, s, codes)
    else wait_line len codes (record s { reading = true; buffer = buf })
