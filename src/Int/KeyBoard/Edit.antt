-- ===== src/Int/KeyBoard/Edit.antt =====
-- The line buffer of kernel/int/key_board.c as a line that is edited at its end, and the shift keys.
use gos_v.Common.{
  ℕ, suc, ◌+◌, ◌-◌, ◌≤◌, ◌≡◌, refl, sym, inl, inr, arith, true, false, ◌&&◌, List, [], ◌∷◌, length,
  ◌==◌, ne→==, eq→==, Bool-cases, leb, if◌then◌else◌,
}
use gos_v.Utils.{Bytes, store}
use gos_v.Int.KeyBoard.{KeyBoard, bs, write_buffer}

-- A line, its last character first. A backspace takes one away; on an empty line it is written.
pub edit : List ℕ → ℕ → List ℕ
edit [] c = c ∷ []
edit (x ∷ xs) c = if c == bs then xs else c ∷ x ∷ xs

pub edit_all : List ℕ → List ℕ → List ℕ
edit_all line [] = line
edit_all line (c ∷ cs) = edit_all (edit line c) cs

pub write_all : KeyBoard → List ℕ → KeyBoard
write_all s [] = s
write_all s (c ∷ cs) = write_all (write_buffer s c) cs

unfoldable pub Stored : Bytes → List ℕ → Type 0
Stored b [] = Unit {0}
Stored b (c ∷ cs) = (b (length cs) ≡ c) × Stored b cs

-- The buffer has the line.
pub record HasLine (s : KeyBoard) (line : List ℕ) : Type 0 where
  pub reads : s.reading ≡ true
  pub size : s.buffer_length ≡ length line
  pub stored : Stored s.buffer line

Stored-store :
    (b : Bytes) (line : List ℕ) (n c : ℕ)
    → length line ≤ n
    → Stored b line
    → Stored (store b n c) line
unfolding Stored
Stored-store b [] n c h t = tt
Stored-store b (x ∷ xs) n c h (e, t) =
    (rw (ne→== (length xs) n (λ z. omega arith)) e, Stored-store b xs n c (omega arith) t)

appended : KeyBoard → ℕ → KeyBoard
appended s c = record s {
  buffer = store s.buffer s.buffer_length c;
  buffer_length = s.buffer_length + 1;
}

shortened : KeyBoard → KeyBoard
shortened s = record s { buffer_length = s.buffer_length - 1 }

write-appended :
    (s : KeyBoard) (c : ℕ)
    → s.reading ≡ true
    → (c == bs && leb 1 s.buffer_length) ≡ false
    → write_buffer s c ≡ appended s c
unfolding write_buffer appended
write-appended s c r e = rw (r, e) refl

write-shortened :
    (s : KeyBoard) (c : ℕ)
    → s.reading ≡ true
    → (c == bs && leb 1 s.buffer_length) ≡ true
    → write_buffer s c ≡ shortened s
unfolding write_buffer shortened
write-shortened s c r e = rw (r, e) refl

appended-HasLine :
    (s : KeyBoard) (line : List ℕ) (c : ℕ) → HasLine s line → HasLine (appended s c) (c ∷ line)
unfolding appended Stored
appended-HasLine s line c h = record {
  reads = h.reads;
  size = omega (arith, h.size);
  stored = (
    rw (eq→== (length line) s.buffer_length (sym h.size)) refl,
    Stored-store s.buffer line s.buffer_length c (omega (arith, h.size)) h.stored,
  );
}

shortened-HasLine :
    (s : KeyBoard) (x : ℕ) (xs : List ℕ) → HasLine s (x ∷ xs) → HasLine (shortened s) xs
unfolding shortened Stored
shortened-HasLine s x xs h = record {
  reads = h.reads;
  size = omega (arith, h.size);
  stored = h.stored.1;
}

write-HasLine :
    (s : KeyBoard) (line : List ℕ) (c : ℕ)
    → HasLine s line
    → HasLine (write_buffer s c) (edit line c)
unfolding edit
write-HasLine s [] c h =
    let z : s.buffer_length ≡ 0 = h.size in
    rw (write-appended s c h.reads (ground arith)) (appended-HasLine s [] c h)
write-HasLine s (x ∷ xs) c h =
    let z : s.buffer_length ≡ suc (length xs) = h.size in
    elim (Bool-cases (c == bs)) [
      | inl e ↦ rw (e, write-shortened s c h.reads (ground arith)) (shortened-HasLine s x xs h)
      | inr e ↦ rw (e, write-appended s c h.reads (ground arith)) (appended-HasLine s (x ∷ xs) c h)
    ]

-- The buffer of `ReadLine` implements a line that is edited at its end: after any characters the
-- handler has written into it, it has the line that editing with the same characters gives, where a
-- backspace takes the last character away, and is itself written when the line is empty.
pub write_all-HasLine :
    (cs line : List ℕ) (s : KeyBoard) → HasLine s line → HasLine (write_all s cs) (edit_all line cs)
unfolding write_all edit_all
write_all-HasLine [] line s h = h
write_all-HasLine (c ∷ cs) line s h =
    write_all-HasLine cs (edit line c) (write_buffer s c) (write-HasLine s line c h)
