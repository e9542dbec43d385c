-- ===== src/User/Shell/Compare.antt =====
-- What the shell of user/gshell.c finds when it looks at a word in `argv`.
use gos_v.Common.{
  ℕ, zero, suc, ◌+◌, ◌*◌, ◌<◌, ◌≤◌, ◌≡◌, ap, ◌∙◌, inl, inr, arith, Bool, Bool-cases, ne→==, eq→==,
  not, List, [], ◌∷◌, length, get_or, Option, none, some, ◌==◌,
}
use gos_v.Common.Search.{first_from}
use gos_v.Print.{chars}
use gos_v.Utils.{Bytes}
use gos_v.User.Stdlib.{strcmp}
use gos_v.User.Shell.{row, is_text, is_blank, is_empty}
use gos_v.User.Shell.Words.{Word, at, Plain, AreWords, Filled}
use gos_v.User.Shell.Meaning.{same, all_blank}

first_is :
    (m : Bytes) (a : ℕ) (v text : Word)
    → ((j : ℕ) → j ≤ length text → m (a + j) ≡ at v j)
    → m a ≡ at v 0
first_is m a v text h = let q : a ≡ a + 0 = omega arith in ap m q ∙ h 0 (omega arith)

next_is :
    (m : Bytes) (a c : ℕ) (v : Word) (n : ℕ)
    → ((j : ℕ) → j ≤ suc n → m (a + j) ≡ at (c ∷ v) j)
    → (j : ℕ) → j ≤ n
    → m (a + 1 + j) ≡ at v j
next_is m a c v n h j l =
    let q : a + 1 + j ≡ a + suc j = omega arith in ap m q ∙ h (suc j) (omega (arith, l))

-- `strcmp` of a word and a literal.
strcmp-same :
    (m : Bytes) (a : ℕ) (v text : Word)
    → Plain v
    → Plain text
    → ((j : ℕ) → j ≤ length text → m (a + j) ≡ at v j)
    → ((strcmp m a text).0 == (strcmp m a text).1) ≡ same v text
unfolding strcmp Plain
strcmp-same m a [] [] p q h = let e = first_is m a [] [] h in eq→== _ 0 e
strcmp-same m a (c ∷ v) [] (p, p1, p2, p') q h =
    let e = first_is m a (c ∷ v) [] h in ne→== _ 0 (λ z. omega (arith, z, e, p))
strcmp-same m a [] (d ∷ text) p (q, q1, q2, q') h =
    let e = first_is m a [] (d ∷ text) h in rw (eq→== _ 0 e) (ne→== 0 d (λ z. omega (arith, z, q)))
strcmp-same m a (c ∷ v) (d ∷ text) (p, p1, p2, p') (q, q1, q2, q') h =
    let e = first_is m a (c ∷ v) (d ∷ text) h in
    let n = ne→== (m a) 0 (λ z. omega (arith, z, e, p)) in
    elim (Bool-cases (c == d)) [
      | inl x ↦
          rw (n, ap (λ k. k == d) e, x)
            (strcmp-same m (a + 1) v text p' q' (next_is m a c v (length text) h))
      | inr x ↦ rw (n, ap (λ k. k == d) e, x) (ap (λ k. k == d) e ∙ x)
    ]

Plain-get_or : (ws : List Word) (i : ℕ) → AreWords ws → Plain (get_or ws i [])
unfolding AreWords Plain
Plain-get_or [] i a = tt
Plain-get_or (w ∷ ws) zero (p, l, a) = p
Plain-get_or (w ∷ ws) (suc i) (p, l, a) = Plain-get_or ws i a

length-get_or : (ws : List Word) (i : ℕ) → AreWords ws → length (get_or ws i []) < row
unfolding AreWords
length-get_or [] i a = omega arith
length-get_or (w ∷ ws) zero (p, l, a) = l
length-get_or (w ∷ ws) (suc i) (p, l, a) = length-get_or ws i a

is_text-same :
    (argv : Bytes) (ws : List Word) (i : ℕ) (text : Word)
    → Filled argv ws
    → AreWords ws
    → i < 100
    → Plain text
    → length text < row
    → is_text argv i text ≡ same (get_or ws i []) text
unfolding is_text
is_text-same argv ws i text f a l p m =
    strcmp-same argv (i * row) (get_or ws i []) text (Plain-get_or ws i a) p
      (λ j h. f i j l (omega (arith, h, m)))

blank_from-all_blank :
    (m : Bytes) (v : Word) (rounds a : ℕ)
    → Plain v
    → length v < rounds
    → ((j : ℕ) → j ≤ length v → m (a + j) ≡ at v j)
    → (elim (first_from (λ i. not (is_blank (m i))) rounds a) as (λ _. Option Bool) [
      | none ↦ none
      | some i ↦ some (m i == 0)
    ])
      ≡ some (all_blank v)
unfolding first_from Plain
blank_from-all_blank m v zero a p l h = absurd (omega (arith, l))
blank_from-all_blank m [] (suc rounds) a p l h =
    let e = first_is m a [] [] h in rw (ap is_blank e) (ap some (eq→== _ 0 e))
blank_from-all_blank m (c ∷ v) (suc rounds) a (p, q, r, t) l h =
    let e = first_is m a (c ∷ v) v (λ j k. h j (omega (arith, k))) in
    elim (Bool-cases (is_blank c)) [
      | inl x ↦
          rw (ap is_blank e, x)
            (blank_from-all_blank m v rounds (a + 1) t (omega (arith, l))
              (next_is m a c v (length v) h))
      | inr x ↦ rw (ap is_blank e, x) (ap some (ne→== _ 0 (λ z. omega (arith, z, e, p))))
    ]

-- The strings that the shell compares with are plain.
pub commands-Plain :
    Plain (chars "ls")
    × Plain (chars "touch")
    × Plain (chars "echo")
    × Plain (chars "cat")
    × Plain (chars "whoami")
    × Plain (chars "-a")
    × Plain (chars ">")
unfolding Plain
commands-Plain = ground arith

module _ (argv : Bytes) (w : Word) (ws : List Word) (f : Filled argv (w ∷ ws))
    (a : AreWords (w ∷ ws)) where
  pub is_empty-all_blank : is_empty argv 1 ≡ some (all_blank (get_or (w ∷ ws) 1 []))
  unfolding is_empty
  is_empty-all_blank =
      let l = length-get_or (w ∷ ws) 1 a in
      blank_from-all_blank argv (get_or (w ∷ ws) 1 []) _ _ (Plain-get_or (w ∷ ws) 1 a)
        (omega (arith, l)) (λ j h. f 1 j (omega arith) (omega (arith, h, l)))

  pub is_word :
      (i : ℕ) (text : Word)
      → i < 100
      → Plain text
      → length text < row
      → is_text argv i text ≡ same (get_or (w ∷ ws) i []) text
  is_word i text l p m = is_text-same argv (w ∷ ws) i text f a l p m
