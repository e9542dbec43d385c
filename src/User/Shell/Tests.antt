-- ===== src/User/Shell/Tests.antt =====
-- Lines that are typed.
use gos_v.Common.{◌≡◌, refl, arith, List, [], ◌∷◌, none, some}
use gos_v.Print.{chars}
use gos_v.Utils.{Bytes}
use gos_v.User.Shell.{argument, list_dir, prints, shell_round}
use gos_v.User.Shell.Words.{Word, Plain, AreWords}
use gos_v.User.Shell.Meaning.{meaning}
use gos_v.User.Shell.Runs.{Runs, shell_round-Runs}

abbrev zeros : Bytes
zeros a = 0

abbrev arguments : List Word
arguments = chars "-a" ∷ chars "/home" ∷ []

arguments-AreWords : AreWords (chars "ls" ∷ arguments)
unfolding AreWords Plain
arguments-AreWords = ground arith

shell_round-Runs_example :
    Runs
      (list_dir (argument 2) (argument 1))
      (chars "ls" ∷ arguments)
      (chars "cat x")
      (shell_round zeros zeros (chars "ls -a /home\ncat x"))
shell_round-Runs_example =
    shell_round-Runs (chars "ls") arguments (chars "cat x") zeros zeros arguments-AreWords
      (omega arith)

-- A backspace is a character of the word, so that a word that was corrected is not known.
corrected :
    meaning (b'l' ∷ b'x' ∷ 8 ∷ b's' ∷ []) []
    ≡ prints (chars "Unknown command: %s\n") (some (argument 0))
corrected = refl

-- Two blanks have an empty word between them.
two_blanks :
    meaning (chars "echo") (chars "a" ∷ [] ∷ chars ">" ∷ chars "b" ∷ [])
    ≡ prints (chars "unsupport used of echo!\n") none
two_blanks = refl
