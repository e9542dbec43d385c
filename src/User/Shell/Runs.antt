-- ===== src/User/Shell/Runs.antt =====
-- A round of the shell of user/gshell.c against what the words of the line mean.
use gos_v.Common.{
  ℕ, suc, ◌<◌, ◌≡◌, refl, ap, ◌∙◌, inl, inr, arith, Bool, true, false, Bool-cases, ne→==, List, [],
  ◌∷◌, length, none, some, if◌then◌else◌,
}
use gos_v.Print.{chars}
use gos_v.Utils.{Bytes}
use gos_v.User.Shell.{
  Input, Command, run_ls, run_touch, run_echo, run_cat, run_command, Round, runs, round_outside,
  run_line, shell_round,
}
use gos_v.User.Shell.Words.{Word, AreWords, typed, Filled}
use gos_v.User.Shell.Read.{HasRead, read_loop-HasRead}
use gos_v.User.Shell.Meaning.{
  same, all_blank, ls_meaning, touch_meaning, echo_meaning, cat_meaning, meaning,
}
use gos_v.User.Shell.Compare.{commands-Plain, is_empty-all_blank, is_word}

-- Each command with its number of words.
run_ls-ls_meaning :
    (argv : Bytes) (w : Word) (ws : List Word)
    → Filled argv (w ∷ ws)
    → AreWords (w ∷ ws)
    → run_ls (length (w ∷ ws)) argv ≡ ls_meaning ws
unfolding run_ls
run_ls-ls_meaning argv w [] f a = refl
run_ls-ls_meaning argv w (x ∷ []) f a = refl
run_ls-ls_meaning argv w (x ∷ y ∷ []) f a =
    let (p1, p2, p3, p4, p5, p6, p7) = commands-Plain in
    rw (is_word argv w (x ∷ y ∷ []) f a 1 (chars "-a") (omega arith) p6 (omega arith)) refl
run_ls-ls_meaning argv w (x ∷ y ∷ z ∷ more) f a =
    let n = length more in
    rw
      (
        ne→== (suc (suc (suc (suc n)))) 1 (λ q. omega (arith, q)),
        ne→== (suc (suc (suc (suc n)))) 2 (λ q. omega (arith, q)),
        ne→== (suc (suc (suc (suc n)))) 3 (λ q. omega (arith, q)),
      )
      refl

run_touch-touch_meaning :
    (argv : Bytes) (w : Word) (ws : List Word)
    → Filled argv (w ∷ ws)
    → AreWords (w ∷ ws)
    → run_touch (length (w ∷ ws)) argv ≡ some (touch_meaning ws)
unfolding run_touch
run_touch-touch_meaning argv w [] f a = refl
run_touch-touch_meaning argv w (x ∷ []) f a =
    let e = is_empty-all_blank argv w (x ∷ []) f a in
    elim (Bool-cases (all_blank x)) [ inl b ↦ rw (e, b) refl | inr b ↦ rw (e, b) refl ]
run_touch-touch_meaning argv w (x ∷ y ∷ more) f a =
    rw (ne→== (suc (suc (suc (length more)))) 2 (λ q. omega (arith, q))) refl

run_echo-echo_meaning :
    (argv : Bytes) (w : Word) (ws : List Word)
    → Filled argv (w ∷ ws)
    → AreWords (w ∷ ws)
    → run_echo (length (w ∷ ws)) argv ≡ echo_meaning ws
unfolding run_echo
run_echo-echo_meaning argv w [] f a = refl
run_echo-echo_meaning argv w (x ∷ []) f a = refl
run_echo-echo_meaning argv w (x ∷ y ∷ []) f a = refl
run_echo-echo_meaning argv w (x ∷ y ∷ z ∷ []) f a =
    let (p1, p2, p3, p4, p5, p6, p7) = commands-Plain in
    rw (is_word argv w (x ∷ y ∷ z ∷ []) f a 2 (chars ">") (omega arith) p7 (omega arith)) refl
run_echo-echo_meaning argv w (x ∷ y ∷ z ∷ v ∷ more) f a =
    rw (ne→== (suc (suc (suc (suc (suc (length more)))))) 4 (λ q. omega (arith, q))) refl

run_cat-cat_meaning : (w : Word) (ws : List Word) → run_cat (length (w ∷ ws)) ≡ cat_meaning ws
unfolding run_cat
run_cat-cat_meaning w [] = refl
run_cat-cat_meaning w (x ∷ []) = refl
run_cat-cat_meaning w (x ∷ y ∷ more) =
    rw (ne→== (suc (suc (suc (length more)))) 2 (λ q. omega (arith, q))) refl

run_command-meaning :
    (argv : Bytes) (w : Word) (ws : List Word)
    → Filled argv (w ∷ ws)
    → AreWords (w ∷ ws)
    → run_command (length (w ∷ ws)) argv ≡ some (meaning w ws)
unfolding run_command
run_command-meaning argv w ws f a =
    let (p1, p2, p3, p4, p5, p6, p7) = commands-Plain in
    let is = is_word argv w ws f a 0 in
    rw
      (
        is (chars "ls") (omega arith) p1 (omega arith),
        is (chars "touch") (omega arith) p2 (omega arith),
        is (chars "echo") (omega arith) p3 (omega arith),
        is (chars "cat") (omega arith) p4 (omega arith),
        is (chars "whoami") (omega arith) p5 (omega arith),
        run_ls-ls_meaning argv w ws f a,
        run_touch-touch_meaning argv w ws f a,
        run_echo-echo_meaning argv w ws f a,
        run_cat-cat_meaning w ws,
      )
      (in_branches (same w (chars "ls")) (same w (chars "touch")) (same w (chars "echo"))
        (same w (chars "cat")) (same w (chars "whoami")) (ls_meaning ws) (touch_meaning ws)
        (echo_meaning ws) (cat_meaning ws) _ _)
  where
    in_branches :
        (a b c d e : Bool) (x1 x2 x3 x4 x5 x6 : Command)
        → (if a
            then some x1
            else if b
            then some x2
            else if c
            then some x3
            else if d
            then some x4
            else if e
            then some x5
            else some x6)
          ≡ some (
              if a
              then x1
              else if b
              then x2
              else if c
              then x3
              else if d
              then x4
              else if e
              then x5
              else x6)
    in_branches true b c d e x1 x2 x3 x4 x5 x6 = refl
    in_branches false true c d e x1 x2 x3 x4 x5 x6 = refl
    in_branches false false true d e x1 x2 x3 x4 x5 x6 = refl
    in_branches false false false true e x1 x2 x3 x4 x5 x6 = refl
    in_branches false false false false true x1 x2 x3 x4 x5 x6 = refl
    in_branches false false false false false x1 x2 x3 x4 x5 x6 = refl

-- The command of a round, with the rows that it refers to.
unfoldable pub Runs : Command → List Word → List ℕ → Round → Type 0
Runs c words rest x = (argv : Bytes) × (x ≡ runs c (length words) argv rest) × Filled argv words

line-Runs :
    (w : Word) (ws : List Word) (rest : List ℕ) (x : Input)
    → AreWords (w ∷ ws)
    → HasRead (w ∷ ws) rest x
    → Runs (meaning w ws) (w ∷ ws) rest (run_line x)
unfolding run_line Runs
line-Runs w ws rest x a h =
    let s = h.last in
    let e = ap (λ n. run_command n s.argv) h.count ∙ run_command-meaning s.argv w ws h.rows a in
    (
      s.argv,
      ap run_line h.reads
          ∙ ap
              (λ o. elim o as (λ _. Round) [
                | none ↦ round_outside
                | some c ↦ runs c s.argc s.argv rest
              ])
              e
          ∙ ap (λ n. runs (meaning w ws) n s.argv rest) h.count,
      h.rows,
    )

-- A line of at most 100 words of less than 100 characters each, with one blank between each two,
-- makes the shell do what its words mean, with the words in the rows of `argv`; what is typed behind
-- the line is left for the next round.
pub shell_round-Runs :
    (w : Word) (ws : List Word) (rest : List ℕ) (argv temp : Bytes)
    → AreWords (w ∷ ws)
    → length ws < 100
    → Runs (meaning w ws) (w ∷ ws) rest (shell_round argv temp (typed w ws rest))
unfolding shell_round
shell_round-Runs w ws rest argv temp a l =
    line-Runs w ws rest _ a (read_loop-HasRead w ws rest argv temp a l)
