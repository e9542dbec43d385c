-- ===== src/User/Shell/Words.antt =====
-- What the reading of a line by user/gshell.c leaves in `argv`.
use gos_v.Common.{
  get_or-beyond, get_or-last, get_or-before, ℕ, zero, suc, ◌+◌, ◌*◌, ◌<◌, ◌≤◌, ◌≡◌, refl, ap, sym,
  ◌∙◌, ◌⊎◌, inl, inr, arith, true, Bool-cases, ==→eq, ==→ne, List, [], ◌∷◌, ◌++◌, length,
  length-append, get_or, Option, none, some, ◌==◌, ltb,
}
use gos_v.Common.Search.{Found}
use gos_v.Utils.{Bytes, store}
use gos_v.User.Stdlib.{strcpy, memset_lem, strcpy_inside, strcpy_outside}
use gos_v.User.Shell.{argv_size, temp_size, row, Reading, begin, put_char}

abbrev pub Word : Type 0
Word = List ℕ

abbrev pub at : Word → ℕ → ℕ
at w j = get_or w j 0

-- No end of a string, blank or line feed.
unfoldable pub Plain : Word → Type 0
Plain [] = Unit
Plain (c ∷ w) = (0 < c) × ¬ (c ≡ b' ') × ¬ (c ≡ b'\n') × Plain w

-- Words that a line can have.
unfoldable pub AreWords : List Word → Type 0
AreWords [] = Unit
AreWords (w ∷ ws) = Plain w × (length w < row) × AreWords ws

-- The words with a blank between each two, and a line feed.
abbrev pub typed : Word → List Word → List ℕ → List ℕ
typed w [] rest = w ++ b'\n' ∷ rest
typed w (next ∷ ws) rest = w ++ b' ' ∷ typed next ws rest

-- A row of `argv` has the characters of its word, and 0 behind them.
abbrev pub Filled : Bytes → List Word → Type 0
Filled argv ws = (i j : ℕ) → i < 100 → j < row → argv (i * row + j) ≡ at (get_or ws i []) j

-- The words that were read, and the part of the next one.
pub record Reads (s : Reading) (ws : List Word) (v : Word) : Type 0 where
  pub count : s.argc ≡ length ws
  pub rows : Filled s.argv ws
  pub chars : (j : ℕ) → j < temp_size → s.temp j ≡ at v j
  pub size : s.k ≡ length v

Plain-at : (w : Word) (j : ℕ) → Plain w → j < length w → 0 < at w j
unfolding Plain
Plain-at [] j p h = absurd (omega (arith, h))
Plain-at (c ∷ w) zero (p, q, r, t) h = p
Plain-at (c ∷ w) (suc j) (p, q, r, t) h = Plain-at w j t (omega (arith, h))

pub begin-Reads : (argv temp : Bytes) → Reads (begin argv temp) [] []
unfolding begin
begin-Reads argv temp = record {
  count = refl;
  rows = λ i j h l. memset_lem 0 0 argv_size argv (i * row + j) ∙ ground (arith, h, l);
  chars = λ j h. memset_lem 0 0 temp_size temp j ∙ ground (arith, h);
  size = refl;
}

-- An ordinary character.
pub put_char-Reads :
    (s : Reading) (ws : List Word) (v : Word) (c : ℕ)
    → Reads s ws v
    → length v < row
    → (s' : Reading) × (put_char s c ≡ some s') × Reads s' ws (v ++ c ∷ [])
unfolding put_char
put_char-Reads s ws v c r l =
    let t : ltb s.k temp_size ≡ true = ground (arith, r.size, l) in
    (
      record s { temp = store s.temp s.k c; k = s.k + 1 },
      rw t refl,
      record {
        count = r.count;
        rows = r.rows;
        chars = λ j h. elim (Bool-cases (j == s.k)) [
          | inl e ↦ rw e (sym (get_or-last v c j 0 (==→eq j s.k e ∙ r.size)))
          | inr e ↦
              rw e (r.chars j h ∙ sym (get_or-before v c j 0 (λ q. ==→ne j s.k e (q ∙ sym r.size))))
        ];
        size = let k = length-append v (c ∷ []) in omega (arith, k, r.size);
      },
    )

pub strlen-Found :
    (temp : Bytes) (v : Word)
    → Plain v
    → length v < row
    → ((j : ℕ) → j < temp_size → temp j ≡ at v j)
    → (r : Option ℕ) → Found (λ i. temp i == 0) temp_size 0 r
    → r ≡ some (length v)
unfolding Found
strlen-Found temp v p l h none f =
    let a = f (length v) (omega arith) (omega (arith, l)) in
    let b = h (length v) (omega (arith, l)) ∙ get_or-beyond v (length v) 0 (omega arith) in
    absurd (==→ne _ 0 a b)
strlen-Found temp v p l h (some i) (x, y, e, f) = elim (Bool-cases (i == length v)) [
  | inl q ↦ ap some (==→eq i (length v) q)
  | inr q ↦ elim (Bool-cases (ltb i (length v))) [
    | inl m ↦
        let a = Plain-at v i p (ground (arith, m)) in
        let b = ==→eq _ 0 e in let c = h i (omega (arith, y)) in absurd (omega (arith, a, b, c))
    | inr m ↦
        let a = f (length v) (omega arith) (ground (arith, q, m)) in
        let b = h (length v) (omega (arith, l)) ∙ get_or-beyond v (length v) 0 (omega arith) in
        absurd (==→ne _ 0 a b)
  ]
]

-- A word is copied to its row.
pub copied-Filled :
    (argv temp : Bytes) (argc : ℕ) (ws : List Word) (v : Word)
    → argc ≡ length ws
    → length v < row
    → Filled argv ws
    → ((j : ℕ) → j < temp_size → temp j ≡ at v j)
    → Filled (strcpy (argc * row) temp (length v) argv) (ws ++ v ∷ [])
copied-Filled argv temp argc ws v e l f h i j x y = elim (Bool-cases (i == argc)) [
  | inl q ↦
      let z = ==→eq i argc q in
      let w = ap (λ u. at u j) (get_or-last ws v i [] (z ∙ e)) in
      elim (Bool-cases (ltb j (length v))) [
        | inl m ↦
            strcpy_inside (argc * row) temp (length v) argv j (i * row + j) (ground (arith, m))
              (omega (arith, z))
            ∙ h j (omega (arith, y))
            ∙ sym w
        | inr m ↦
            strcpy_outside (argc * row) temp (length v) argv (i * row + j)
              (inr (ground (arith, z, m)))
            ∙ f i j x y
            ∙ ap (λ u. at u j) (get_or-beyond ws i [] (omega (arith, z, e)))
            ∙ sym (get_or-beyond v j 0 (ground (arith, m)))
            ∙ sym w
      ]
  | inr q ↦
      strcpy_outside (argc * row) temp (length v) argv (i * row + j)
        (apart_rows (==→ne i argc q) y l)
      ∙ f i j x y
      ∙ sym (ap (λ u. at u j) (get_or-before ws v i [] (λ z. ==→ne i argc q (z ∙ sym e))))
]
  where
    apart_rows :
        {i j : ℕ}
        → ¬ (i ≡ argc)
        → j < row
        → length v < row
        → (i * row + j < argc * row) ⊎ (argc * row + length v ≤ i * row + j)
    apart_rows n y l = ground (arith, n, y, l)
