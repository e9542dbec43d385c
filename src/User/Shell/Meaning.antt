-- ===== src/User/Shell/Meaning.antt =====
-- What the words of a line mean to the shell of user/gshell.c.
use gos_v.Common.{Bool, true, false, List, [], ◌∷◌, none, some, ◌==◌, if◌then◌else◌}
use gos_v.Print.{chars}
use gos_v.User.Shell.{
  literal, argument, Command, nothing, list_dir, touch_file, write_to_file, browser_file, prints,
  is_blank,
}
use gos_v.User.Shell.Words.{Word}

abbrev pub same : Word → Word → Bool
same [] [] = true
same [] (d ∷ w) = false
same (c ∷ v) [] = false
same (c ∷ v) (d ∷ w) = if c == d then same v w else false

abbrev pub all_blank : Word → Bool
all_blank [] = true
all_blank (c ∷ w) = if is_blank c then all_blank w else false

-- The commands, given the words behind the first.
abbrev pub ls_meaning : List Word → Command
ls_meaning [] = list_dir (literal (chars ".")) (literal (chars ""))
ls_meaning (path ∷ []) = list_dir (argument 1) (literal (chars ""))
ls_meaning (option ∷ path ∷ []) =
    if same option (chars "-a")
    then list_dir (argument 2) (argument 1)
    else prints (chars "[ls] unknown option: %s\n") (some (argument 1))
ls_meaning (option ∷ path ∷ more ∷ ws) = nothing

abbrev pub touch_meaning : List Word → Command
touch_meaning [] = prints (chars "unsupport used of touch!\n") none
touch_meaning (name ∷ []) =
    if all_blank name
    then prints (chars "unsupported file: empty filename!\n") none
    else touch_file (argument 1)
touch_meaning (name ∷ more ∷ ws) = prints (chars "unsupport used of touch!\n") none

abbrev pub echo_meaning : List Word → Command
echo_meaning (text ∷ arrow ∷ name ∷ []) =
    if same arrow (chars ">")
    then write_to_file (argument 1) (argument 3)
    else prints (chars "unsupport used of echo!\n") none
echo_meaning [] = prints (chars "unsupport used of echo!\n") none
echo_meaning (text ∷ []) = prints (chars "unsupport used of echo!\n") none
echo_meaning (text ∷ arrow ∷ []) = prints (chars "unsupport used of echo!\n") none
echo_meaning (text ∷ arrow ∷ name ∷ more ∷ ws) = prints (chars "unsupport used of echo!\n") none

abbrev pub cat_meaning : List Word → Command
cat_meaning [] = prints (chars "unsupport used of cat!\n") none
cat_meaning (name ∷ []) = browser_file (argument 1)
cat_meaning (name ∷ more ∷ ws) = prints (chars "unsupport used of cat!\n") none

-- What the words of a line mean.
abbrev pub meaning : Word → List Word → Command
meaning w ws =
    if same w (chars "ls")
    then ls_meaning ws
    else if same w (chars "touch")
    then touch_meaning ws
    else if same w (chars "echo")
    then echo_meaning ws
    else if same w (chars "cat")
    then cat_meaning ws
    else if same w (chars "whoami")
    then prints (chars "root\n") none
    else prints (chars "Unknown command: %s\n") (some (argument 0))
