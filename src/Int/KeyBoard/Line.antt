-- ===== src/Int/KeyBoard/Line.antt =====
-- What `ReadLine` of kernel/int/key_board.c returns for a line that is typed.
use gos_v.Common.{
  ℕ, ◌+◌, ◌-◌, ◌≤◌, ◌<◌, ◌≡◌, ◌≢◌, refl, ap, subst, ◌∙◌, arith, true, false, List, [], ◌∷◌, ◌++◌,
  Outcome, ok, length, ◌==◌, ne→==, le→ltb,
}
use gos_v.Int.KeyMap.{keymap_chars}
use gos_v.Utils.{Bytes}
use gos_v.Int.KeyBoard.{
  KeyBoard, keyboard_handler, complete, end_line, finish_line, ctrl_state, shift_state, wait_line,
  read_line,
}
use gos_v.Int.KeyBoard.Typing.{
  Plain, IsOrdinary, IsWritten, plain, written, released, typed, press, let_go, typed-Plain,
}

-- The scan codes of keys that are pressed and let go in turn.
abbrev pub strokes : List ℕ → List ℕ
strokes [] = []
strokes (k ∷ ks) = k ∷ (k + 128) ∷ strokes ks

-- Keys that write characters of a line: no modifiers, no invisible ones, no backspace and no line
-- feed.
unfoldable pub IsText : List ℕ → Type 0
IsText [] = Unit {0}
IsText (k ∷ ks) = IsOrdinary k × IsWritten (plain k) × (plain k ≢ b'\n') × IsText ks

-- From `i` on the buffer has the characters of the keys and the end of the string.
pub Holds : Bytes → ℕ → List ℕ → Type 0
Holds b i [] = b i ≡ 0
Holds b i (k ∷ ks) = (b i ≡ plain k) × Holds b (i + 1) ks

wait_more :
    (s : KeyBoard) (len c : ℕ) (cs : List ℕ)
    → complete s ≡ false
    → wait_line len (c ∷ cs) s ≡ wait_line len cs (keyboard_handler s c)
unfolding wait_line
wait_more s len c cs h = rw h refl

wait_done :
    (s : KeyBoard) (len : ℕ) (cs : List ℕ)
    → complete s ≡ true
    → s.buffer_length ≤ len
    → wait_line len cs s ≡ finish_line s cs
unfolding wait_line
wait_done s len [] h l = ground arith
wait_done s len (c ∷ cs) h l = ground arith

complete-written : (s : KeyBoard) (k c : ℕ) → complete (written s k c) ≡ (c == b'\n')
unfolding complete written
complete-written s k c = ground arith

complete-typed : (s : KeyBoard) (k : ℕ) → complete (typed s k) ≡ (plain k == b'\n')
unfolding typed written released complete
complete-typed s k = ground arith

enter-IsOrdinary : IsOrdinary 28
enter-IsOrdinary = record {
  row = omega arith;
  no_ctrl = λ z. omega arith;
  no_shift_l = λ z. omega arith;
  no_shift_r = λ z. omega arith;
}

enter-IsWritten : IsWritten b'\n'
enter-IsWritten = record { visible = λ z. omega arith; no_backspace = λ z. omega arith }

-- How the reading of a line from the state `s` ends.
record LineRead (s : KeyBoard) (ks rest : List ℕ) (r : Outcome (ℕ × KeyBoard × List ℕ))
    : Type 0 where
  final : KeyBoard
  returns : r ≡ ok (s.buffer_length + length ks, final, rest)
  before : (j : ℕ) → j < s.buffer_length → final.buffer j ≡ s.buffer j
  text : Holds final.buffer s.buffer_length ks
  given_up : final.reading ≡ false
  emptied : final.buffer_length ≡ 0

enter-finish :
    (s : KeyBoard) (rest : List ℕ) (len : ℕ)
    → Plain s
    → s.reading ≡ true
    → complete s ≡ false
    → s.buffer_length + 1 ≤ len
    → wait_line len (28 ∷ rest) s ≡ finish_line (written s 28 b'\n') rest
unfolding plain keymap_chars written
enter-finish s rest len p r h l =
    wait_more s len 28 rest h
    ∙ ap (wait_line len rest) (press s 28 p enter-IsOrdinary enter-IsWritten r)
    ∙ wait_done (written s 28 b'\n') len rest (complete-written s 28 b'\n') l

finish-LineRead :
    (s : KeyBoard) (rest : List ℕ) (r : Outcome (ℕ × KeyBoard × List ℕ))
    → r ≡ finish_line (written s 28 b'\n') rest
    → LineRead s [] rest r
unfolding written finish_line Holds
finish-LineRead s rest r e =
    let t : s.buffer_length + 1 - 1 ≡ s.buffer_length + 0 = omega arith in
    record {
      final = end_line (written s 28 b'\n');
      returns = e ∙ ap (λ n. ok (n, end_line (written s 28 b'\n'), rest)) t;
      before = λ j l. ground arith;
      text = ground arith;
      given_up = refl;
      emptied = refl;
    }

read_key :
    (s : KeyBoard) (k : ℕ) (ks rest : List ℕ) (r r' : Outcome (ℕ × KeyBoard × List ℕ))
    → r' ≡ r
    → LineRead (typed s k) ks rest r
    → LineRead s (k ∷ ks) rest r'
unfolding typed written released Holds
read_key s k ks rest r r' e t = record {
  final = t.final;
  returns = e ∙ t.returns ∙ ap (λ n. ok (n, t.final, rest)) (omega arith);
  before = λ j l. t.before j (omega arith) ∙ ground arith;
  text = (t.before s.buffer_length (omega arith) ∙ ground arith, t.text);
  given_up = t.given_up;
  emptied = t.emptied;
}

-- The whole line, and what `enter` closes.
types :
    (ks rest : List ℕ) (len : ℕ) (s : KeyBoard)
    → Plain s
    → s.reading ≡ true
    → complete s ≡ false
    → IsText ks
    → s.buffer_length + length ks + 1 ≤ len
    → LineRead s ks rest (wait_line len (strokes ks ++ 28 ∷ rest) s)
unfolding IsText typed released written
types [] rest len s p r h t l =
    finish-LineRead s rest _ (enter-finish s rest len p r h (omega arith))
types (k ∷ ks) rest len s p r h (o, w, n, t) l =
    let cs = strokes ks ++ 28 ∷ rest in
    let f = complete-written s k (plain k) ∙ ne→== (plain k) b'\n' n in
    read_key s k ks rest _ _
      (wait_more s len k ((k + 128) ∷ cs) h
        ∙ ap (wait_line len ((k + 128) ∷ cs)) (press s k p o w r)
        ∙ wait_more (written s k (plain k)) len (k + 128) cs f
        ∙ ap (wait_line len cs) (let_go s k p o w r))
      (types ks rest len (typed s k) (typed-Plain s k p o w r) r
        (complete-typed s k ∙ ne→== (plain k) b'\n' n) t (omega arith))

-- With no modifier held and no prefix pending, `ReadLine` of at most 1024 characters returns a line
-- of ordinary keys, pressed and let go in turn and ended by enter, that fits with its end: the
-- length is the number of keys, the buffer has their characters and the end of the string, the scan
-- codes behind enter are left, and the buffer is given up.
pub read_line_types :
    (buf : Bytes) (ks rest : List ℕ) (len : ℕ) (s : KeyBoard)
    → Plain s
    → s.buffer_length ≡ 0
    → IsText ks
    → length ks + 1 ≤ len
    → len ≤ 1024
    → (s' : KeyBoard) × (read_line buf len (strokes ks ++ 28 ∷ rest) s ≡ ok (length ks, s', rest))
      × Holds s'.buffer 0 ks
      × (s'.reading ≡ false)
      × (s'.buffer_length ≡ 0)
unfolding read_line complete ctrl_state shift_state
read_line_types buf ks rest len s p z t l m =
    let r =
      types ks rest len (record s { reading = true; buffer = buf })
        (record {
          chars = p.chars;
          capslock = p.capslock;
          extcode = p.extcode;
          ctrl = p.ctrl;
          shift = p.shift;
        })
        refl (ground arith) t (omega (arith, z)) in
    let e : s.buffer_length + length ks ≡ length ks = omega (arith, z) in
    (
      r.final,
      rw (le→ltb 1024 len m) (r.returns ∙ ap (λ n. ok (n, r.final, rest)) e),
      subst (λ n. Holds r.final.buffer n ks) z r.text,
      r.given_up,
      r.emptied,
    )
