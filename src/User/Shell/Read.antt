-- ===== src/User/Shell/Read.antt =====
-- The reading of a line by user/gshell.c.
use gos_v.Common.{
  get_or-beyond, ℕ, ◌+◌, ◌-◌, ◌*◌, ◌<◌, ◌≤◌, ◌≡◌, refl, ap, sym, ◌∙◌, subst, inl, inr, arith, true,
  Bool-cases, ==→eq, ==→ne, ne→==, List, [], ◌∷◌, ◌++◌, length, length-append, none, some, ◌==◌,
  leb, ltb, if◌then◌else◌,
}
use mathlib.Core.List.{append-nil}
use gos_v.Common.Search.{first_from-Found}
use gos_v.Utils.{Bytes, store}
use gos_v.User.Stdlib.{strlen, memset, strcpy, memset_lem}
use gos_v.User.Shell.{
  argv_size, temp_size, row, Reading, Input, line, outside, begin, copy_word, end_word, put_char,
  next_char, last_word, read_loop,
}
use gos_v.User.Shell.Words.{
  Word, at, Plain, AreWords, typed, Filled, Reads, begin-Reads, put_char-Reads, strlen-Found,
  copied-Filled,
}

-- The end of a word.
end_word-Filled :
    (s : Reading) (ws : List Word) (v : Word)
    → s.argc ≡ length ws
    → Filled s.argv ws
    → ((j : ℕ) → j < temp_size → s.temp j ≡ at v j)
    → Plain v
    → length v < row
    → length ws < 100
    → (end_word s
        ≡ some
            (record s { argc = s.argc + 1; argv = strcpy (s.argc * row) s.temp (length v) s.argv }))
      × Filled (strcpy (s.argc * row) s.temp (length v) s.argv) (ws ++ v ∷ [])
unfolding end_word copy_word strlen
end_word-Filled s ws v a g h p l m =
    let e = strlen-Found s.temp v p l h _ (first_from-Found (λ i. s.temp i == 0) temp_size 0) in
    let t : leb (s.argc * row + length v) argv_size ≡ true = ground (arith, a, l, m) in
    (rw (e, t) refl, copied-Filled s.argv s.temp s.argc ws v a l g h)

blank-Reads :
    (s : Reading) (ws : List Word) (v : Word)
    → Reads s ws v
    → Plain v
    → length v < row
    → length ws < 100
    → (s' : Reading) × (next_char s b' ' ≡ some s') × Reads s' (ws ++ v ∷ []) []
unfolding next_char
blank-Reads s ws v r p l m =
    let (e, f) = end_word-Filled s ws v r.count r.rows r.chars p l m in
    (
      record {
        argc = s.argc + 1;
        argv = strcpy (s.argc * row) s.temp (length v) s.argv;
        temp = memset 0 0 temp_size s.temp;
        k = 0;
      },
      rw e refl,
      record {
        count = let k = length-append ws (v ∷ []) in omega (arith, k, r.count);
        rows = f;
        chars = λ j h. memset_lem 0 0 temp_size s.temp j ∙ ground (arith, h);
        size = refl;
      },
    )

append_one {ℓ} :
    {A : Type ℓ} → (xs : List A) (x : A) (ys : List A) → (xs ++ x ∷ []) ++ ys ≡ xs ++ x ∷ ys
append_one [] x ys = refl
append_one (z ∷ xs) x ys = ap (λ l. z ∷ l) (append_one xs x ys)

-- A round of the loop, and the last one.
reads_on :
    (c : ℕ) (rest : List ℕ) (s s' : Reading)
    → ¬ (c ≡ b'\n')
    → next_char s c ≡ some s'
    → read_loop (c ∷ rest) s ≡ read_loop rest s'
unfolding read_loop
reads_on c rest s s' n e =
    ap
      (λ o. elim o as (λ _. Input) [
        | none ↦ outside
        | some t ↦ if c == b'\n' then last_word t rest else read_loop rest t
      ])
      e
    ∙ ap (λ b. if b then last_word s' rest else read_loop rest s') (ne→== c b'\n' n)

reads_last :
    (rest : List ℕ) (s s1 s2 : Reading)
    → put_char s b'\n' ≡ some s1
    → end_word (record s1 { temp = store s1.temp (s1.k - 1) 0 }) ≡ some s2
    → read_loop (b'\n' ∷ rest) s ≡ line s2 rest
unfolding read_loop next_char last_word
reads_last rest s s1 s2 e f =
    ap (λ o. elim o as (λ _. Input) [ none ↦ outside | some t ↦ last_word t rest ]) e
    ∙ ap (λ o. elim o as (λ _. Input) [ none ↦ outside | some t ↦ line t rest ]) f

puts : (s : Reading) (c : ℕ) → ¬ (c ≡ b' ') → next_char s c ≡ put_char s c
unfolding next_char
puts s c n = rw (ne→== c b' ' n) refl

-- The characters of a word.
word-Reads :
    (w : Word) (rest : List ℕ) (s : Reading) (ws : List Word) (v : Word)
    → Reads s ws v
    → Plain w
    → length v + length w ≤ row
    → (s' : Reading) × (read_loop (w ++ rest) s ≡ read_loop rest s') × Reads s' ws (v ++ w)
unfolding Plain
word-Reads [] rest s ws v r p l = (s, refl, subst (Reads s ws) (sym (append-nil v)) r)
word-Reads (c ∷ w) rest s ws v r (p, q, t, u) l =
    let (s1, e, r1) = put_char-Reads s ws v c r (omega (arith, l)) in
    let k = length-append v (c ∷ []) in
    let (s2, f, r2) = word-Reads w rest s1 ws (v ++ c ∷ []) r1 u (omega (arith, k, l)) in
    (
      s2,
      reads_on c (w ++ rest) s s1 t (puts s c q ∙ e) ∙ f,
      subst (Reads s2 ws) (append_one v c w) r2,
    )

-- The line that was read.
pub record HasRead (words : List Word) (rest : List ℕ) (x : Input) : Type 0 where
  pub last : Reading
  pub reads : x ≡ line last rest
  pub count : last.argc ≡ length words
  pub rows : Filled last.argv words

last-HasRead :
    (s : Reading) (ws : List Word) (v : Word) (rest : List ℕ)
    → Reads s ws v
    → Plain v
    → length v < row
    → length ws < 100
    → HasRead (ws ++ v ∷ []) rest (read_loop (b'\n' ∷ rest) s)
unfolding put_char
last-HasRead s ws v rest r p l m =
    let t : ltb s.k temp_size ≡ true = ground (arith, r.size, l) in
    let temp' = store (store s.temp s.k b'\n') (s.k + 1 - 1) 0 in
    let s' = record s { temp = temp'; k = s.k + 1 } in
    let h : (j : ℕ) → j < temp_size → temp' j ≡ at v j = λ j h. elim (Bool-cases (j == s.k)) [
      | inl e ↦
          let z = ==→eq j s.k e in
          let g = get_or-beyond v j 0 (omega (arith, z, r.size)) in ground (arith, z, g)
      | inr e ↦ let g = r.chars j h in let z = ==→ne j s.k e in ground (arith, z, g)
    ] in
    let (e, f) = end_word-Filled s' ws v r.count r.rows h p l m in
    record {
      last = record s' { argc = s.argc + 1; argv = strcpy (s.argc * row) temp' (length v) s.argv };
      reads =
          reads_last rest s (record s { temp = store s.temp s.k b'\n'; k = s.k + 1 }) _ (rw t refl)
            e;
      count = let k = length-append ws (v ∷ []) in omega (arith, k, r.count);
      rows = f;
    }

words-HasRead :
    (w : Word) (ws : List Word) (done : List Word) (rest : List ℕ) (s : Reading)
    → Reads s done []
    → AreWords (w ∷ ws)
    → length done + length (w ∷ ws) ≤ 100
    → HasRead (done ++ w ∷ ws) rest (read_loop (typed w ws rest) s)
unfolding AreWords
words-HasRead w [] done rest s r (p, l, a) m =
    let (s', e, r') = word-Reads w (b'\n' ∷ rest) s done [] r p (omega (arith, l)) in
    subst (HasRead (done ++ w ∷ []) rest) (sym e)
      (last-HasRead s' done w rest r' p l (omega (arith, m)))
words-HasRead w (next ∷ ws) done rest s r (p, l, a) m =
    let (s1, e1, r1) = word-Reads w (b' ' ∷ typed next ws rest) s done [] r p (omega (arith, l)) in
    let (s2, e2, r2) = blank-Reads s1 done w r1 p l (omega (arith, m)) in
    let k = length-append done (w ∷ []) in
    subst (HasRead (done ++ w ∷ next ∷ ws) rest)
      (sym (e1 ∙ reads_on b' ' (typed next ws rest) s1 s2 (λ q. omega (arith, q)) e2))
      (subst (λ l. HasRead l rest (read_loop (typed next ws rest) s2))
        (append_one done w (next ∷ ws))
        (words-HasRead next ws (done ++ w ∷ []) rest s2 r2 a (omega (arith, k, m))))

-- A line of at most 100 words of less than 100 characters each, with one blank between each two, is
-- read to its end: `argc` is the number of the words, and each row of `argv` has the characters of
-- its word and 0 behind them.
pub read_loop-HasRead :
    (w : Word) (ws : List Word) (rest : List ℕ) (argv temp : Bytes)
    → AreWords (w ∷ ws)
    → length ws < 100
    → HasRead (w ∷ ws) rest (read_loop (typed w ws rest) (begin argv temp))
read_loop-HasRead w ws rest argv temp a l =
    words-HasRead w ws [] rest (begin argv temp) (begin-Reads argv temp) a (omega (arith, l))
