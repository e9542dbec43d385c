-- ===== src/Console/Line.antt =====
-- What kernel/console/console.c shows of characters that fit on the line.
use gos_v.Common.{
  ℕ, suc, ◌+◌, ◌*◌, ◌/◌, ◌%◌, ◌^◌, ◌<◌, ◌≤◌, ◌≡◌, ◌⊎◌, inl, inr, refl, ap, subst, sym, ◌∙◌, arith,
  true, false, List, [], ◌∷◌, ◌==◌, ne→==, leb, length, ◌||◌,
}
use gos_v.Utils.{Bytes}
use gos_v.Console.{
  Monitor, ConsoleColor, code_of, Writing, cell, write_cell, get_screen_address, get_cursor_address,
  get_cursor, set_cursor, monitor_base_address, screen_width, screen_high, put_char, wrap_line,
  scroll_screen, move_position, write_char, write_loop, begin, write_plain,
  console_write_with_color,
}
use gos_v.Console.Registers.{get_screen-set_cursor, get_cursor_address-set_cursor}
use gos_v.Console.Screen.{IsShown, begin-OnScreen, offset-cursor}
use gos_v.Console.Place.{OnScreen, write_char-OnScreen}

-- Characters of ASCII that are no controls.
unfoldable pub ArePrintable : List ℕ → Type 0
ArePrintable [] = Unit {0}
ArePrintable (c ∷ cs) = (0x20 ≤ c) × (c < 128) × ArePrintable cs

lt→leb : (a b : ℕ) → a < b → leb b a ≡ false
lt→leb a b h = ground arith

-- From an address on the cells have the characters and the color.
unfoldable pub Shows : Bytes → ℕ → ConsoleColor → List ℕ → Type 0
Shows memory p color [] = Unit {0}
Shows memory p color (c ∷ cs) =
    (memory p ≡ c) × (memory (p + 1) ≡ code_of color) × Shows memory (p + 2) color cs

-- One character that does not end the line.
after : ConsoleColor → ℕ → Writing → Writing
after color c w = record {
  monitor = write_cell w.monitor w.current_position (cell color c);
  current_position = w.current_position + 2;
  row = w.row;
  col = w.col + 1;
}

put-after :
    (color : ConsoleColor) (c : ℕ) (w : Writing)
    → 0x20 ≤ c
    → put_char color c w ≡ record w {
      monitor = write_cell w.monitor w.current_position (cell color c);
      col = w.col + 1;
    }
unfolding put_char
put-after color c w h =
    rw
      (
        ne→== c 8 (λ z. omega arith),
        ne→== c 9 (λ z. omega arith),
        ne→== c 10 (λ z. omega arith),
        ne→== c 13 (λ z. omega arith),
      )
      refl

wrap_stays : (w : Writing) → w.col < screen_width → wrap_line w ≡ w
unfolding wrap_line
wrap_stays w h = rw (lt→leb w.col 80 h) refl

scroll_stays : (w : Writing) → w.row < screen_high → scroll_screen w ≡ w
unfolding scroll_screen
scroll_stays w h = rw (lt→leb w.row 25 h) refl

moved_on :
    (w : Writing) (k p : ℕ)
    → p ≡ monitor_base_address + 2 * (80 * k + w.row * 80 + w.col)
    → get_screen_address w.monitor ≡ monitor_base_address + 2 * (80 * k)
    → k ≤ 78
    → w.row < screen_high
    → w.col < screen_width
    → move_position w ≡ record w { current_position = p }
unfolding move_position
moved_on w k p e f l h g =
    let q : (get_screen_address w.monitor + w.row * 160 + w.col * 2) % 2 ^ 32 ≡ p =
      omega (arith, e, f) in
    ap (λ a. record w { current_position = a }) q

screen-write_cell :
    (m : Monitor) (p v : ℕ) → get_screen_address (write_cell m p v) ≡ get_screen_address m
unfolding get_screen_address
screen-write_cell m p v = refl

write-after :
    (color : ConsoleColor) (c : ℕ) (w : Writing)
    → OnScreen w
    → 0x20 ≤ c
    → w.col + 1 < screen_width
    → write_char color c w ≡ after color c w
unfolding write_char after
write-after color c w s h g =
    ap (λ v. move_position (scroll_screen (wrap_line v))) (put-after color c w h)
    ∙ ap (λ v. move_position (scroll_screen v)) (wrap_stays _ g)
    ∙ ap move_position (scroll_stays _ s.on_row)
    ∙ moved_on _ s.line (w.current_position + 2) (omega (arith, s.position))
        (screen-write_cell w.monitor w.current_position (cell color c) ∙ s.screen) s.low s.on_row g

-- What printing characters leaves.
record Typed (color : ConsoleColor) (cs : List ℕ) (w w' : Writing) : Type 0 where
  row : w'.row ≡ w.row
  col : w'.col ≡ w.col + length cs
  screen : get_screen_address w'.monitor ≡ get_screen_address w.monitor
  shows : Shows w'.monitor.memory w.current_position color cs
  others :
      (a : ℕ)
      → (a < w.current_position) ⊎ (w.current_position + 2 * length cs ≤ a)
      → w'.monitor.memory a ≡ w.monitor.memory a

cell_low : (color : ConsoleColor) (c : ℕ) → c < 128 → cell color c % 2 ^ 8 ≡ c
cell_low color c h = ground arith

cell_high : (color : ConsoleColor) (c : ℕ) → c < 128 → cell color c / 2 ^ 8 ≡ code_of color
cell_high color c h = ground arith

stored_low : (m : Monitor) (p v : ℕ) → (write_cell m p v).memory p ≡ v % 2 ^ 8
stored_low m p v = ground arith

stored_high : (m : Monitor) (p v : ℕ) → (write_cell m p v).memory (p + 1) ≡ v / 2 ^ 8
stored_high m p v = ground arith

stored_others :
    (m : Monitor) (p v a : ℕ) → (a < p) ⊎ (p + 2 ≤ a) → (write_cell m p v).memory a ≡ m.memory a
stored_others m p v a (inl h) = ground arith
stored_others m p v a (inr h) = ground arith

outside : (a p n : ℕ) → (a < p) ⊎ (p + 2 * suc n ≤ a) → (a < p + 2) ⊎ (p + 2 + 2 * n ≤ a)
outside a p n (inl h) = inl (omega (arith, h))
outside a p n (inr h) = inr (omega (arith, h))

before : (a p n : ℕ) → (a < p) ⊎ (p + 2 * suc n ≤ a) → (a < p) ⊎ (p + 2 ≤ a)
before a p n (inl h) = inl h
before a p n (inr h) = inr (omega (arith, h))

first-Typed :
    (color : ConsoleColor) (c : ℕ) (cs : List ℕ) (w w' : Writing)
    → c < 128
    → Typed color cs (after color c w) w'
    → Typed color (c ∷ cs) w w'
unfolding after Shows
first-Typed color c cs w w' u t = record {
  row = t.row;
  col = omega (arith, t.col);
  screen = t.screen ∙ screen-write_cell w.monitor w.current_position (cell color c);
  shows = (
    t.others w.current_position (inl (omega arith))
        ∙ stored_low w.monitor w.current_position (cell color c)
        ∙ cell_low color c u,
    t.others (w.current_position + 1) (inl (omega arith))
        ∙ stored_high w.monitor w.current_position (cell color c)
        ∙ cell_high color c u,
    t.shows,
  );
  others = λ a o.
      t.others a (outside a w.current_position (length cs) o)
      ∙ stored_others w.monitor w.current_position (cell color c) a
          (before a w.current_position (length cs) o);
}

later : (n m : ℕ) → n + suc m < screen_width → n + 1 + m < screen_width
later n m h = omega (arith, h)

loop-Typed :
    (color : ConsoleColor) (cs : List ℕ) (w : Writing)
    → OnScreen w
    → ArePrintable cs
    → w.col + length cs < screen_width
    → Typed color cs w (write_loop color (length cs) cs w)
unfolding write_loop ArePrintable Shows after
loop-Typed color [] w s p h = record {
  row = refl;
  col = omega arith;
  screen = refl;
  shows = tt;
  others = λ a o. refl;
}
loop-Typed color (c ∷ cs) w s (l, u, p) h =
    let e = write-after color c w s l (omega (arith, h)) in
    let o = subst OnScreen e (write_char-OnScreen color c w s) in
    subst (λ v. Typed color (c ∷ cs) w (write_loop color (length cs) cs v)) (sym e)
      (first-Typed color c cs w _ u
        (loop-Typed color cs (after color c w) o p (later w.col (length cs) h)))

begin-row : (m : Monitor) (s : IsShown m) → (begin m).row ≡ s.row
unfolding begin get_cursor
begin-row m s = rw (offset-cursor m s) (omega (arith, s.on_col))

begin-col : (m : Monitor) (s : IsShown m) → (begin m).col ≡ s.col
unfolding begin get_cursor
begin-col m s = rw (offset-cursor m s) (omega (arith, s.on_col))

-- The cursor after the loop.
ended :
    (m : Monitor) (buf : List ℕ) (color : ConsoleColor) (s : IsShown m)
    → Typed color buf (begin m) (write_loop color (length buf) buf (begin m))
    → s.col + length buf < screen_width
    → get_cursor_address (write_plain m buf (length buf) color)
      ≡ get_cursor_address m + 2 * length buf
unfolding write_plain begin
ended m buf color s t h =
    let w = write_loop color (length buf) buf (begin m) in
    let r : w.row ≡ s.row = t.row ∙ begin-row m s in
    let c : w.col ≡ s.col + length buf = t.col ∙ ap (λ z. z + length buf) (begin-col m s) in
    get_cursor_address-set_cursor w.monitor w.row w.col (80 * s.line) (t.screen ∙ s.screen)
      (omega (arith, r, c, s.low, s.on_row, h))
    ∙ omega (arith, r, c, s.cursor)

plain-Shows :
    (m : Monitor) (buf : List ℕ) (color : ConsoleColor) (s : IsShown m)
    → ArePrintable buf
    → s.col + length buf < screen_width
    → Shows (write_plain m buf (length buf) color).memory (get_cursor_address m) color buf
      × (get_cursor_address (write_plain m buf (length buf) color)
          ≡ get_cursor_address m + 2 * length buf)
      × (get_screen_address (write_plain m buf (length buf) color) ≡ get_screen_address m)
unfolding write_plain begin set_cursor
plain-Shows m buf color s p h =
    let t =
      loop-Typed color buf (begin m) (begin-OnScreen m s) p (omega (arith, begin-col m s, h)) in
    (t.shows, ended m buf color s t h, get_screen-set_cursor _ _ _ ∙ t.screen)

-- `ConsoleWriteWithColor` of characters of ASCII that are no controls and fit before the end of the
-- line, in white or light blue, with the cursor on the screen: they stand in that color in the
-- cells from the cursor on, the cursor moves on by their number, and the screen stays.
pub console_write-Shows :
    (m : Monitor) (buf : List ℕ) (color : ConsoleColor) (s : IsShown m)
    → (code_of color == 7) || (code_of color == 9) ≡ true
    → ArePrintable buf
    → s.col + length buf < screen_width
    → Shows
        (console_write_with_color m buf (length buf) color).1.memory
        (get_cursor_address m)
        color
        buf
      × (get_cursor_address (console_write_with_color m buf (length buf) color).1
          ≡ get_cursor_address m + 2 * length buf)
      × (get_screen_address (console_write_with_color m buf (length buf) color).1
          ≡ get_screen_address m)
unfolding console_write_with_color
console_write-Shows m buf color s e p h = rw e (plain-Shows m buf color s p h)
