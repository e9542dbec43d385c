-- ===== src/Int/KeyBoard/Typing.antt =====
-- What typing plain keys does to the state of kernel/int/key_board.c.
use gos_v.Common.{
  ℕ, ◌+◌, ◌%◌, ◌<◌, ◌≡◌, ◌≢◌, refl, ap, ◌∙◌, arith, ◌∷◌, Bool, true, false, ne→==, get_or,
}
use gos_v.Common.Bits.{has_bit}
use gos_v.Int.KeyMap.{null_char, keymap_chars}
use gos_v.Utils.{store}
use gos_v.Int.KeyBoard.{
  KeyBoard, char, set_held, key_ctrl_l, key_shift_l, key_shift_r, bs, ctrl_state, shift_state,
  shifted, char_of, write_buffer, type_char, handle_key, keyboard_handler,
}

-- The character that a key writes without shift.
unfoldable pub plain : ℕ → ℕ
plain k = (get_or keymap_chars k (null_char, null_char)).0

-- No modifier is held, no prefix is pending and the table is in place.
pub record Plain (s : KeyBoard) : Type 0 where
  pub chars : (k : ℕ) → k < 95 → s.chars k ≡ get_or keymap_chars k (null_char, null_char)
  pub capslock : s.capslock_state ≡ false
  pub extcode : s.extcode_state ≡ false
  pub ctrl : ctrl_state s ≡ false
  pub shift : shift_state s ≡ false

-- A key that is no modifier.
pub record IsOrdinary (k : ℕ) : Type 0 where
  pub row : k < 95
  pub no_ctrl : k ≢ key_ctrl_l
  pub no_shift_l : k ≢ key_shift_l
  pub no_shift_r : k ≢ key_shift_r

make_bit : (k : ℕ) → k < 95 → has_bit k 7 ≡ false
unfolding has_bit
make_bit k h = ground arith

break_bit : (k : ℕ) → k < 95 → has_bit (k + 128) 7 ≡ true
unfolding has_bit
break_bit k h = ground arith

ctrl-set_held :
    (s : KeyBoard) (k : ℕ) (v : Bool)
    → k ≢ key_ctrl_l
    → ctrl_state (record s { held = set_held s.held false k v }) ≡ ctrl_state s
unfolding ctrl_state
ctrl-set_held s k v h = ground arith

shift-set_held :
    (s : KeyBoard) (k : ℕ) (v : Bool)
    → k ≢ key_shift_l
    → k ≢ key_shift_r
    → shift_state (record s { held = set_held s.held false k v }) ≡ shift_state s
unfolding shift_state
shift-set_held s k v h g = ground arith

handler_plain :
    (s : KeyBoard) (c : ℕ)
    → c ≢ 224
    → s.extcode_state ≡ false
    → keyboard_handler s c ≡ handle_key s false c
unfolding keyboard_handler
handler_plain s c n e = rw (ne→== c 224 n, e) refl

unfoldable pub released : KeyBoard → ℕ → KeyBoard
released s k = record s { held = set_held s.held false k false }

handle_break : (s : KeyBoard) (k : ℕ) → k < 95 → handle_key s false (k + 128) ≡ released s k
unfolding handle_key released
handle_break s k h = let t : (k + 128) % 128 ≡ k = omega arith in rw (t, break_bit k h) refl

-- Letting a key go.
handler-break :
    (s : KeyBoard) (k : ℕ)
    → k < 95
    → s.extcode_state ≡ false
    → keyboard_handler s (k + 128) ≡ released s k
handler-break s k h e = handler_plain s (k + 128) (λ z. omega arith) e ∙ handle_break s k h

pressed : KeyBoard → ℕ → KeyBoard
pressed s k = record s { held = set_held s.held false k true }

char_of-plain :
    (s : KeyBoard) (k : ℕ) → Plain s → IsOrdinary k → char_of (pressed s k) false k ≡ plain k
unfolding char_of shifted pressed plain
char_of-plain s k p o =
    rw (shift-set_held s k true o.no_shift_l o.no_shift_r, p.shift, p.capslock)
      (ap (λ r. r.0) (p.chars k o.row))

handle_make :
    (s : KeyBoard) (k : ℕ)
    → k < 95
    → handle_key s false k ≡ type_char (pressed s k) (char_of (pressed s k) false k)
unfolding handle_key pressed
handle_make s k h = let t : k % 128 ≡ k = omega arith in rw (t, make_bit k h) refl

-- Pressing a key.
handler-make :
    (s : KeyBoard) (k : ℕ)
    → Plain s
    → IsOrdinary k
    → keyboard_handler s k ≡ type_char (pressed s k) (plain k)
handler-make s k p o =
    handler_plain s k (λ z. omega (arith, o.row)) p.extcode
    ∙ handle_make s k o.row
    ∙ ap (type_char (pressed s k)) (char_of-plain s k p o)

-- A character that is written into a line.
pub record IsWritten (c : ℕ) : Type 0 where
  pub visible : c ≢ null_char
  pub no_backspace : c ≢ bs

unfoldable pub written : KeyBoard → ℕ → ℕ → KeyBoard
written s k c = record s {
  held = set_held s.held false k true;
  printed = char c ∷ s.printed;
  buffer = store s.buffer s.buffer_length c;
  buffer_length = s.buffer_length + 1;
  global_char = c;
}

type_char-written :
    (s : KeyBoard) (k c : ℕ)
    → Plain s
    → IsOrdinary k
    → IsWritten c
    → s.reading ≡ true
    → type_char (pressed s k) c ≡ written s k c
unfolding type_char pressed written write_buffer
type_char-written s k c p o w r =
    rw
      (
        ne→== c null_char w.visible,
        ctrl-set_held s k true o.no_ctrl,
        p.ctrl,
        ne→== c bs w.no_backspace,
        r,
      )
      refl

ctrl-written : (s : KeyBoard) (k c : ℕ) → k ≢ key_ctrl_l → ctrl_state (written s k c) ≡ ctrl_state s
unfolding ctrl_state written
ctrl-written s k c h = ground arith

shift-written :
    (s : KeyBoard) (k c : ℕ)
    → k ≢ key_shift_l
    → k ≢ key_shift_r
    → shift_state (written s k c) ≡ shift_state s
unfolding shift_state written
shift-written s k c h g = ground arith

-- The state after a key is pressed and let go that writes its character into a line.
unfoldable pub typed : KeyBoard → ℕ → KeyBoard
typed s k = released (written s k (plain k)) k

-- One such key.
module _ (s : KeyBoard) (k : ℕ) (p : Plain s) (o : IsOrdinary k) (w : IsWritten (plain k))
    (r : s.reading ≡ true) where
  pub press : keyboard_handler s k ≡ written s k (plain k)
  press = handler-make s k p o ∙ type_char-written s k (plain k) p o w r

  pub let_go : keyboard_handler (written s k (plain k)) (k + 128) ≡ typed s k
  unfolding written typed
  let_go = handler-break (written s k (plain k)) k o.row p.extcode

  pub typed-Plain : Plain (typed s k)
  unfolding typed written released
  typed-Plain = record {
    chars = p.chars;
    capslock = p.capslock;
    extcode = p.extcode;
    ctrl =
        ctrl-set_held (written s k (plain k)) k false o.no_ctrl
        ∙ ctrl-written s k (plain k) o.no_ctrl
        ∙ p.ctrl;
    shift =
        shift-set_held (written s k (plain k)) k false o.no_shift_l o.no_shift_r
        ∙ shift-written s k (plain k) o.no_shift_l o.no_shift_r
        ∙ p.shift;
  }
