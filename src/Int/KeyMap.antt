-- ===== src/Int/KeyMap.antt =====
-- The table `keymap` of kernel/int/key_board.c.
use gos_v.Common.{ℕ, List, [], ◌∷◌}

-- `NULL_CHAR`
abbrev pub null_char : ℕ
null_char = 0

-- The first two columns by scan code: without shift and with it.
unfoldable pub keymap_chars : List (ℕ × ℕ)
keymap_chars =
    (null_char, null_char)
    ∷ (0x1b, 0x1b)
    ∷ (b'1', b'!')
    ∷ (b'2', b'@')
    ∷ (b'3', b'#')
    ∷ (b'4', b'$')
    ∷ (b'5', b'%')
    ∷ (b'6', b'^')
    ∷ (b'7', b'&')
    ∷ (b'8', b'*')
    ∷ (b'9', b'(')
    ∷ (b'0', b')')
    ∷ (b'-', b'_')
    ∷ (b'=', b'+')
    ∷ (8, 8)
    ∷ (9, 9)
    ∷ (b'q', b'Q')
    ∷ (b'w', b'W')
    ∷ (b'e', b'E')
    ∷ (b'r', b'R')
    ∷ (b't', b'T')
    ∷ (b'y', b'Y')
    ∷ (b'u', b'U')
    ∷ (b'i', b'I')
    ∷ (b'o', b'O')
    ∷ (b'p', b'P')
    ∷ (b'[', b'{')
    ∷ (b']', b'}')
    ∷ (b'\n', b'\n')
    ∷ (null_char, null_char)
    ∷ (b'a', b'A')
    ∷ (b's', b'S')
    ∷ (b'd', b'D')
    ∷ (b'f', b'F')
    ∷ (b'g', b'G')
    ∷ (b'h', b'H')
    ∷ (b'j', b'J')
    ∷ (b'k', b'K')
    ∷ (b'l', b'L')
    ∷ (b';', b':')
    ∷ (b'\'', b'"')
    ∷ (b'`', b'~')
    ∷ (null_char, null_char)
    ∷ (b'\\', b'|')
    ∷ (b'z', b'Z')
    ∷ (b'x', b'X')
    ∷ (b'c', b'C')
    ∷ (b'v', b'V')
    ∷ (b'b', b'B')
    ∷ (b'n', b'N')
    ∷ (b'm', b'M')
    ∷ (b',', b'<')
    ∷ (b'.', b'>')
    ∷ (b'/', b'?')
    ∷ (null_char, null_char)
    ∷ (b'*', b'*')
    ∷ (null_char, null_char)
    ∷ (b' ', b' ')
    ∷ (null_char, null_char)
    ∷ (null_char, null_char)
    ∷ (null_char, null_char)
    ∷ (null_char, null_char)
    ∷ (null_char, null_char)
    ∷ (null_char, null_char)
    ∷ (null_char, null_char)
    ∷ (null_char, null_char)
    ∷ (null_char, null_char)
    ∷ (null_char, null_char)
    ∷ (null_char, null_char)
    ∷ (null_char, null_char)
    ∷ (null_char, null_char)
    ∷ (b'7', null_char)
    ∷ (b'8', null_char)
    ∷ (b'9', null_char)
    ∷ (b'-', b'-')
    ∷ (b'4', null_char)
    ∷ (b'5', null_char)
    ∷ (b'6', null_char)
    ∷ (b'+', b'+')
    ∷ (b'1', null_char)
    ∷ (b'2', null_char)
    ∷ (b'3', null_char)
    ∷ (b'0', null_char)
    ∷ (b'.', 0x7F)
    ∷ (null_char, null_char)
    ∷ (null_char, null_char)
    ∷ (null_char, null_char)
    ∷ (null_char, null_char)
    ∷ (null_char, null_char)
    ∷ (null_char, null_char)
    ∷ (null_char, null_char)
    ∷ (null_char, null_char)
    ∷ (null_char, null_char)
    ∷ (null_char, null_char)
    ∷ (null_char, null_char)
    ∷ []
