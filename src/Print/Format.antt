-- ===== src/Print/Format.antt =====
-- kernel/lib/print.c: `SkipAtoi` and `Vsprintf`.
-- The arguments on the stack are words. `memory` is what a pointer leads to, up to the end of its
-- object, and `real_of` what the floating-point unit reads in the two words of a `double`.
pub mod Decimal
pub mod Ends
mod Tests
use Prim.Native.String.{String}
use gos_v.Common.{
  ℕ, zero, suc, ◌+◌, ◌-◌, ◌*◌, ◌%◌, ◌^◌, Bool, true, false, not, ◌&&◌, ◌||◌, List, [], ◌∷◌, ◌++◌,
  Option, none, some, Outcome, ok, panic, hang, ◌>>=◌, ◌==◌, leb, ltb, if◌then◌else◌, get_or,
  length, replicate, take,
}
use gos_v.Utils.{string_length, is_digit}
use gos_v.Print.{Flags, Value, whole, positive, number}

-- -1 as an `i32`
abbrev pub unset : ℕ
unset = 2 ^ 32 - 1

abbrev pub no_flags : Flags
no_flags = record {
  zeropad = false;
  sign = false;
  plus = false;
  space = false;
  left = false;
  special = false;
  small = false;
}

-- `*fmt`, NUL at the end.
abbrev pub current : List ℕ → ℕ
current [] = 0
current (c ∷ fmt) = c

-- `++fmt`
abbrev pub next : List ℕ → List ℕ
next [] = []
next (c ∷ fmt) = fmt

unfoldable pub skip_atoi : ℕ → List ℕ → ℕ × List ℕ
skip_atoi i [] = (i, [])
skip_atoi i (c ∷ fmt) =
    let rest = skip_atoi ((i * 10 + c + (2 ^ 32 - 48)) % 2 ^ 32) fmt in
    if is_digit c then rest else (i, c ∷ fmt)

unfoldable pub flag_of : Flags → ℕ → Option Flags
flag_of flags c =
    if c == b'-'
    then some (record flags { left = true })
    else (if c == b'+'
        then some (record flags { plus = true })
        else (if c == b' '
            then some (record flags { space = true })
            else (if c == b'#'
                then some (record flags { special = true })
                else (if c == b'0' then some (record flags { zeropad = true }) else none))))

-- The label `repeat`.
unfoldable pub read_flags : Flags → List ℕ → Flags × List ℕ
read_flags flags [] = (flags, [])
read_flags flags (c ∷ fmt) = elim (flag_of flags c) [
  | some flags' ↦ read_flags flags' fmt
  | none ↦ (flags, c ∷ fmt)
]

-- What is known of a conversion, the place in the arguments and the format from its next character.
pub record Spec : Type 0 where
  pub flags : Flags
  pub field_width : ℕ
  pub precision : ℕ
  pub ap : ℕ
  pub fmt : List ℕ

-- A conversion done: the text, and what `%n` stores.
pub record Written : Type 0 where
  pub text : List ℕ
  pub ap : ℕ
  pub fmt : List ℕ
  pub stores : List (ℕ × ℕ)

-- The place in the output, the arguments and the format.
pub record Printing : Type 0 where
  pub out : List ℕ
  pub ap : ℕ
  pub fmt : List ℕ
  pub stores : List (ℕ × ℕ)

-- `Number` with one of the bases below never gives null (`Width.length-number`).
abbrev pub text_of : Option (List ℕ) → List ℕ
text_of (some text) = text
text_of none = []

unfoldable pub number_text : Value → ℕ → ℕ → ℕ → Flags → List ℕ
number_text v base size precision flags = text_of (number v base size precision flags)

-- The bytes at a pointer as numbers, with a separator after each but the last.
unfoldable pub separated : ℕ → (ℕ → List ℕ) → List ℕ → ℕ → ℕ → List ℕ
separated separator show bytes t zero = []
separated separator show bytes t (suc zero) = show (get_or bytes t 0)
separated separator show bytes t (suc (suc n)) =
    show (get_or bytes t 0) ++ separator ∷ separated separator show bytes (t + 1) (suc n)

abbrev pub start : List ℕ → Printing
start fmt = record { out = []; ap = 0; fmt = fmt; stores = [] }

module _ (memory : ℕ → List ℕ) (real_of : ℕ → ℕ → Value) (args : ℕ → ℕ) where
  unfoldable pub read_width : Flags → ℕ → List ℕ → Spec
  read_width flags ap fmt =
      if is_digit (current fmt)
      then (let (width, rest) = skip_atoi 0 fmt in
          record { flags = flags; field_width = width; precision = unset; ap = ap; fmt = rest })
      else (if current fmt == b'*'
          then (if leb (2 ^ 31) (args ap)
              then record {
                flags = record flags { left = true };
                field_width = 2 ^ 32 - args ap;
                precision = unset;
                ap = ap + 1;
                fmt = next fmt;
              }
              else record {
                flags = flags;
                field_width = args ap;
                precision = unset;
                ap = ap + 1;
                fmt = next fmt;
              })
          else record { flags = flags; field_width = unset; precision = unset; ap = ap; fmt = fmt })

  -- `if (precision < 0) precision = 0;`
  abbrev pub not_negative : Spec → Spec
  not_negative s = record s { precision = positive s.precision }

  -- After `.*` the star is not passed over.
  unfoldable pub read_precision : Spec → Spec
  read_precision s =
      if current s.fmt == b'.'
      then (let fmt = next s.fmt in
          not_negative (
            if is_digit (current fmt)
            then (let (precision, rest) = skip_atoi 0 fmt in
                record s { precision = precision; fmt = rest })
            else (if current fmt == b'*'
                then record s { precision = args s.ap; ap = s.ap + 1; fmt = fmt }
                else record s { fmt = fmt })))
      else s

  unfoldable pub skip_qualifier : Spec → Spec
  skip_qualifier s =
      if (current s.fmt == b'h') || ((current s.fmt == b'l') || (current s.fmt == b'L'))
      then record s { fmt = next s.fmt }
      else s

  unfoldable pub char_text : Spec → List ℕ
  char_text s =
      let blanks = replicate (positive s.field_width - 1) b' ' in
      if s.flags.left then args s.ap % 256 ∷ blanks else blanks ++ args s.ap % 256 ∷ []

  unfoldable pub string_text : Spec → List ℕ
  string_text s =
      let str = memory (args s.ap) in
      let full = string_length str in
      let len =
        if leb (2 ^ 31) s.precision
        then full
        else (if ltb s.precision full then s.precision else full) in
      let blanks = replicate (positive s.field_width - len) b' ' in
      if s.flags.left then take len str ++ blanks else blanks ++ take len str

  -- A conversion that takes one word.
  abbrev pub one_word : Spec → List ℕ → Written
  one_word s text = record { text = text; ap = s.ap + 1; fmt = next s.fmt; stores = [] }

  abbrev pub integer : Spec → ℕ → Flags → Written
  integer s base flags =
      one_word s (number_text (whole (args s.ap)) base s.field_width s.precision flags)

  -- The last `switch`, given `str - buf`.
  unfoldable pub convert : ℕ → Spec → Written
  convert count s =
      let c = current s.fmt in
      let word = args s.ap in
      if c == b'c'
      then one_word s (char_text s)
      else if c == b's'
      then one_word s (string_text s)
      else if c == b'o'
      then integer s 8 s.flags
      else if c == b'p'
      then one_word s (
          if s.field_width == unset
          then number_text (whole word) 16 8 s.precision (record s.flags { zeropad = true })
          else number_text (whole word) 16 s.field_width s.precision s.flags)
      else if c == b'x'
      then integer s 16 (record s.flags { small = true })
      else if c == b'X'
      then integer s 16 s.flags
      else if (c == b'd') || (c == b'i')
      then integer s 10 (record s.flags { sign = true })
      else if c == b'u'
      then integer s 10 s.flags
      else if c == b'n'
      then record { text = []; ap = s.ap + 1; fmt = next s.fmt; stores = (word, count) ∷ [] }
      else if c == b'f'
      then record {
        text =
            number_text (real_of word (args (s.ap + 1))) 10 s.field_width s.precision
              (record s.flags { sign = true });
        ap = s.ap + 2;
        fmt = next s.fmt;
        stores = [];
      }
      else if c == b'b'
      then integer s 2 s.flags
      else if c == b'm'
      then one_word s (
          separated b':'
            (λ b.
              number_text (whole b) 16 2 s.precision
                (record s.flags { small = true; zeropad = true }))
            (memory word) 0 6)
      else if c == b'r'
      then one_word s (
          separated b'.'
            (λ b.
              number_text (whole b) 10 s.field_width s.precision (record s.flags { small = true }))
            (memory word) 0 4)
      else if c == b'%'
      then record { text = b'%' ∷ []; ap = s.ap; fmt = next s.fmt; stores = [] }
      else if c == 0
      then record { text = b'%' ∷ []; ap = s.ap; fmt = s.fmt; stores = [] }
      else record { text = b'%' ∷ c ∷ []; ap = s.ap; fmt = next s.fmt; stores = [] }

  -- From behind a `%` up to the last `switch`.
  unfoldable pub read_spec : ℕ → List ℕ → Spec
  read_spec ap fmt =
      let (flags, rest) = read_flags no_flags fmt in
      skip_qualifier (read_precision (read_width flags ap rest))

  -- One round of the outer loop; `none` at the end of the format.
  unfoldable pub step : Printing → Option Printing
  step s =
      let c = current s.fmt in
      if c == 0
      then none
      else if c == b'%'
      then (let w = convert (length s.out) (read_spec s.ap (next s.fmt)) in
          some (record {
            out = s.out ++ w.text;
            ap = w.ap;
            fmt = w.fmt;
            stores = w.stores ++ s.stores;
          }))
      else some (record s { out = s.out ++ c ∷ []; fmt = next s.fmt })

  unfoldable pub run : ℕ → Printing → Outcome Printing
  run zero s = hang
  run (suc rounds) s = elim (step s) [ none ↦ ok s | some s' ↦ run rounds s' ]

  -- `Vsprintf` into a buffer: the number of characters, the buffer up to the NUL, and the stores of
  -- `%n`. Each round passes over a character of the format, so one more round than it has is enough.
  unfoldable pub vsprintf : List ℕ → Outcome (ℕ × List ℕ × List (ℕ × ℕ))
  vsprintf fmt = do
    s ← run (suc (length fmt)) (start fmt)
    if ltb (length s.out) 1024 then ok (length s.out, s.out ++ 0 ∷ [], s.stores) else panic
