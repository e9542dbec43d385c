-- ===== src/User/Shell.antt =====
-- user/gshell.c: the reading of a command line and what it makes the shell do. The prompt is not
-- modelled.
pub mod Words
pub mod Read
pub mod Meaning
pub mod Compare
pub mod Runs
mod Tests
use gos_v.Common.{
  ℕ, zero, suc, ◌+◌, ◌-◌, ◌*◌, Bool, true, false, not, ◌&&◌, ◌||◌, List, [], ◌∷◌, Option, none,
  some, ◌==◌, leb, ltb, if◌then◌else◌,
}
use gos_v.Print.{chars}
use gos_v.Common.Search.{first_from}
use gos_v.Utils.{Bytes, store}
use gos_v.User.Stdlib.{strlen, strcmp, memset, strcpy}

-- `argv` and `temp` in bytes, and the bytes of a row of `argv`.
abbrev pub argv_size : ℕ
argv_size = 10000

abbrev pub temp_size : ℕ
temp_size = 1024

abbrev pub row : ℕ
row = 100

-- `argc`, `argv`, `temp` and `k`. An address of `argv` is counted from its start.
pub record Reading : Type 0 where
  pub argc : ℕ
  pub argv : Bytes
  pub temp : Bytes
  pub k : ℕ

-- How the reading of a line ends: with the line and the characters that have not been read, at the
-- end of the input, or with an access behind an array.
pub data Input : Type 0 where
  line : Reading → List ℕ → Input
  waits outside : Input

unfoldable pub begin : Bytes → Bytes → Reading
begin argv temp = record {
  argc = 0;
  argv = memset 0 0 argv_size argv;
  temp = memset 0 0 temp_size temp;
  k = 0;
}

-- `strcpy(argv[argc++], temp, strlen(temp))`
unfoldable pub copy_word : Reading → Option ℕ → Option Reading
copy_word s none = none
copy_word s (some n) =
    if leb (s.argc * row + n) argv_size
    then some (record s { argc = s.argc + 1; argv = strcpy (s.argc * row) s.temp n s.argv })
    else none

unfoldable pub end_word : Reading → Option Reading
end_word s = copy_word s (strlen s.temp temp_size)

abbrev clear_word : Option Reading → Option Reading
clear_word none = none
clear_word (some s) = some (record s { temp = memset 0 0 temp_size s.temp; k = 0 })

unfoldable pub put_char : Reading → ℕ → Option Reading
put_char s ch =
    if ltb s.k temp_size then some (record s { temp = store s.temp s.k ch; k = s.k + 1 }) else none

-- The body of the loop.
unfoldable pub next_char : Reading → ℕ → Option Reading
next_char s ch = if ch == b' ' then clear_word (end_word s) else put_char s ch

-- Behind the loop: the line feed gives way to the end of the string. The loop has stored it, so that
-- `k` is not 0.
unfoldable pub last_word : Reading → List ℕ → Input
last_word s rest = elim (end_word (record s { temp = store s.temp (s.k - 1) 0 })) [
  | none ↦ outside
  | some t ↦ line t rest
]

unfoldable pub read_loop : List ℕ → Reading → Input
read_loop [] s = waits
read_loop (ch ∷ rest) s = elim (next_char s ch) [
  | none ↦ outside
  | some t ↦ if ch == b'\n' then last_word t rest else read_loop rest t
]

-- A string that the shell passes on: a literal, or a row of `argv`.
pub data Text : Type 0 where
  literal : List ℕ → Text
  argument : ℕ → Text

-- What a line makes the shell do; `prints` is a call of `printf`, given its format and the string
-- for its `%s`. `BrowserFile` is followed by a line feed.
pub data Command : Type 0 where
  nothing : Command
  list_dir : Text → Text → Command
  touch_file : Text → Command
  write_to_file : Text → Text → Command
  browser_file : Text → Command
  prints : List ℕ → Option Text → Command

-- `strcmp(argv[i], text) == 0`
unfoldable pub is_text : Bytes → ℕ → List ℕ → Bool
is_text argv i text = let (x, y) = strcmp argv (i * row) text in x == y

abbrev pub is_blank : ℕ → Bool
is_blank c = c == b' ' || (c == b'\t' || c == b'\n')

-- `is_empty` of a row: at its first character that is not blank it answers, if there is one in `argv`.
unfoldable pub is_empty : Bytes → ℕ → Option Bool
is_empty argv i =
    elim (first_from (λ a. not (is_blank (argv a))) (argv_size - i * row) (i * row))
      as (λ _. Option Bool) [ none ↦ none | some a ↦ some (argv a == 0) ]

unfoldable pub run_ls : ℕ → Bytes → Command
run_ls argc argv =
    if argc == 1
    then list_dir (literal (chars ".")) (literal (chars ""))
    else if argc == 2
    then list_dir (argument 1) (literal (chars ""))
    else if argc == 3
    then (if is_text argv 1 (chars "-a")
        then list_dir (argument 2) (argument 1)
        else prints (chars "[ls] unknown option: %s\n") (some (argument 1)))
    else nothing

unfoldable pub run_touch : ℕ → Bytes → Option Command
run_touch argc argv =
    if argc == 2
    then (elim (is_empty argv 1) as (λ _. Option Command) [
      | none ↦ none
      | some true ↦ some (prints (chars "unsupported file: empty filename!\n") none)
      | some false ↦ some (touch_file (argument 1))
    ])
    else some (prints (chars "unsupport used of touch!\n") none)

unfoldable pub run_echo : ℕ → Bytes → Command
run_echo argc argv =
    if argc == 4 && is_text argv 2 (chars ">")
    then write_to_file (argument 1) (argument 3)
    else prints (chars "unsupport used of echo!\n") none

unfoldable pub run_cat : ℕ → Command
run_cat argc =
    if argc == 2 then browser_file (argument 1) else prints (chars "unsupport used of cat!\n") none

-- The rest of the round of the shell; `none` is an access behind `argv`.
unfoldable pub run_command : ℕ → Bytes → Option Command
run_command argc argv =
    if is_text argv 0 (chars "ls")
    then some (run_ls argc argv)
    else if is_text argv 0 (chars "touch")
    then run_touch argc argv
    else if is_text argv 0 (chars "echo")
    then some (run_echo argc argv)
    else if is_text argv 0 (chars "cat")
    then some (run_cat argc)
    else if is_text argv 0 (chars "whoami")
    then some (prints (chars "root\n") none)
    else some (prints (chars "Unknown command: %s\n") (some (argument 0)))

-- One round: the command with `argc` and `argv`, and the characters that have not been read.
pub data Round : Type 0 where
  runs : Command → ℕ → Bytes → List ℕ → Round
  round_waits round_outside : Round

unfoldable pub run_line : Input → Round
run_line waits = round_waits
run_line outside = round_outside
run_line (line s rest) = elim (run_command s.argc s.argv) [
  | none ↦ round_outside
  | some c ↦ runs c s.argc s.argv rest
]

unfoldable pub shell_round : Bytes → Bytes → List ℕ → Round
shell_round argv temp input = run_line (read_loop input (begin argv temp))
