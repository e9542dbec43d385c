-- ===== src/Int/KeyBoard/Tests.antt =====
-- Runs of the keyboard's handler.
use gos_v.Common.{ℕ, ◌≡◌, refl, arith, true, false, List, [], ◌∷◌, ◌++◌, ok, lt→ltb, length}
use gos_v.Common.Bits.{has_bit}
use gos_v.Int.KeyMap.{keymap_chars}
use gos_v.Utils.{is_lower}
use gos_v.Int.KeyBoard.{
  KeyBoard, initialize_keyboard, keyboard_handler, handle_key, type_char, write_buffer, char_of,
  shifted, shift_state, ctrl_state, read_line,
}
use gos_v.Int.KeyBoard.Typing.{Plain, plain}
use gos_v.Int.KeyBoard.Line.{strokes, IsText, Holds, read_line_types}
use gos_v.Int.KeyBoard.Edit.{HasLine, Stored, write_all, edit_all, write_all-HasLine}

abbrev dark : KeyBoard
dark = record {
  chars = λ k. (7, 7);
  held = λ ext k. false;
  capslock_state = true;
  extcode_state = true;
  reading = true;
  buffer = λ i. 7;
  buffer_length = 7;
  global_char = 7;
  printed = [];
}

abbrev lit : KeyBoard
lit = initialize_keyboard (λ k. (0, 0)) dark

lit-Plain : Plain lit
unfolding initialize_keyboard ctrl_state shift_state
lit-Plain = record {
  chars = λ k h. rw (lt→ltb k 95 h) refl;
  capslock = refl;
  extcode = refl;
  ctrl = refl;
  shift = refl;
}

-- The keys of `ls`.
abbrev ls_keys : List ℕ
ls_keys = 0x26 ∷ 0x1f ∷ []

ls_keys-IsText : IsText ls_keys
unfolding IsText plain keymap_chars
ls_keys-IsText = (
  record {
    row = omega arith;
    no_ctrl = λ z. omega arith;
    no_shift_l = λ z. omega arith;
    no_shift_r = λ z. omega arith;
  },
  record { visible = λ z. omega arith; no_backspace = λ z. omega arith },
  (λ z. omega arith),
  (
    record {
      row = omega arith;
      no_ctrl = λ z. omega arith;
      no_shift_l = λ z. omega arith;
      no_shift_r = λ z. omega arith;
    },
    record { visible = λ z. omega arith; no_backspace = λ z. omega arith },
    (λ z. omega arith),
    tt,
  ),
)

read_line_types_example :
    (s' : KeyBoard) × (read_line (λ i. 9) 64 (strokes ls_keys ++ 28 ∷ (156 ∷ [])) lit
      ≡ ok (length ls_keys, s', 156 ∷ []))
    × Holds s'.buffer 0 ls_keys
    × (s'.reading ≡ false)
    × (s'.buffer_length ≡ 0)
unfolding initialize_keyboard
read_line_types_example =
    read_line_types (λ i. 9) ls_keys (156 ∷ []) 64 lit lit-Plain refl ls_keys-IsText (omega arith)
      (omega arith)

abbrev opened : KeyBoard
opened = record lit { reading = true }

opened-HasLine : HasLine opened []
unfolding Stored initialize_keyboard
opened-HasLine = record { reads = refl; size = refl; stored = tt }

write_all-HasLine_example :
    HasLine (write_all opened (8 ∷ b'a' ∷ b'b' ∷ 8 ∷ [])) (edit_all [] (8 ∷ b'a' ∷ b'b' ∷ 8 ∷ []))
write_all-HasLine_example = write_all-HasLine (8 ∷ b'a' ∷ b'b' ∷ 8 ∷ []) [] opened opened-HasLine

-- Shift and `a`.
shift_a : (keyboard_handler (keyboard_handler lit 0x2a) 0x1e).global_char ≡ b'A'
unfolding initialize_keyboard keyboard_handler handle_key type_char write_buffer char_of shifted
    shift_state ctrl_state keymap_chars is_lower has_bit
shift_a = refl
