-- ===== src/Print.antt =====
-- kernel/lib/print.c: `Number`. A size or precision is a `u32` that stands for an `i32`; a negative one
-- has the same effect as 0, since both are only counted down to 0.
pub mod Digits
pub mod Width
pub mod Format
pub mod Log
use Prim.Native.Char.{code}
use Prim.Native.String.{String}
use gos_v.Common.{
  ℕ, zero, suc, ◌+◌, ◌-◌, ◌/◌, ◌%◌, ◌^◌, Bool, true, false, not, ◌&&◌, ◌||◌, List, [], ◌∷◌, ◌++◌,
  Option, none, some, ◌==◌, leb, ltb, if◌then◌else◌, get_or, length, replicate,
}

-- The characters of a text.
abbrev pub chars : String → List ℕ
chars String.[] = []
chars (String.◌∷◌ c s) = code c ∷ chars s

-- `ZEROPAD`, `SIGN`, `PLUS`, `SPACE`, `LEFT`, `SPECIAL` and `SMALL`. `DOUBLE` tells what the number is,
-- which is its type here.
pub record Flags : Type 0 where
  pub zeropad : Bool
  pub sign : Bool
  pub plus : Bool
  pub space : Bool
  pub left : Bool
  pub special : Bool
  pub small : Bool

-- What `num` points to: a `u32`, or a `double` by whether it is negative and by the two numbers that
-- the code takes from its absolute value, the whole part and the part behind the point in millionths.
pub data Value : Type 0 where
  whole : ℕ → Value
  real : Bool → ℕ → ℕ → Value

-- An `i32` counted down to 0.
abbrev pub positive : ℕ → ℕ
positive w = if ltb w (2 ^ 31) then w else 0

unfoldable pub digits : Bool → List ℕ
digits false = chars "0123456789ABCDEFGHIJKLMNOPQRSTUVWXYZ"
digits true = chars "0123456789abcdefghijklmnopqrstuvwxyz"

unfoldable pub digit : Bool → ℕ → ℕ
digit small index = get_or (digits small) index 0

-- `while (num != 0)`: the digits, the last one first. A `u32` has at most 32 of them.
unfoldable pub digits_loop : ℕ → Bool → ℕ → ℕ → List ℕ
digits_loop zero small base num = []
digits_loop (suc rounds) small base num =
    let rest = digits_loop rounds small base (num / base) in
    if num == 0 then [] else digit small (num % base) ∷ rest

-- `do … while (num)`
unfoldable pub digits_do : Bool → ℕ → ℕ → List ℕ
digits_do small base num = digit small (num % base) ∷ digits_loop 32 small base (num / base)

-- `-(i32)num` where the number is signed and negative.
unfoldable pub is_negative : Flags → Value → Bool
is_negative flags (whole num) = flags.sign && leb (2 ^ 31) num
is_negative flags (real negative ival fval) = negative

unfoldable pub tmp : Flags → ℕ → Value → List ℕ
tmp flags base (whole num) =
    let num = if is_negative flags (whole num) then 2 ^ 32 - num else num in
    if num == 0 then b'0' ∷ [] else digits_loop 32 flags.small base num
tmp flags base (real negative ival fval) =
    digits_do flags.small base fval ++ b'.' ∷ digits_do flags.small base ival

unfoldable pub sign_text : Flags → Value → List ℕ
sign_text flags v =
    if is_negative flags v
    then b'-' ∷ []
    else (if flags.plus then b'+' ∷ [] else (if flags.space then b' ' ∷ [] else []))

unfoldable pub special_text : Flags → ℕ → List ℕ
special_text flags base =
    if flags.special
    then (if base == 8
        then b'0' ∷ []
        else (if base == 16 then b'0' ∷ digit flags.small 33 ∷ [] else []))
    else []

unfoldable pub reversed : List ℕ → List ℕ → List ℕ
reversed [] out = out
reversed (c ∷ cs) out = reversed cs (c ∷ out)

-- The text that is written: blanks before the sign, sign, prefix, padding, zeros up to the precision,
-- digits, and blanks behind.
unfoldable pub lay_out : Flags → List ℕ → List ℕ → List ℕ → ℕ → ℕ → List ℕ
lay_out flags sign prefix tmp size precision =
    let precision =
      if ltb (positive precision) (length tmp) then length tmp else positive precision in
    let size = positive size - length sign - length prefix - precision in
    (if flags.zeropad || flags.left then [] else replicate size b' ')
    ++ sign
    ++ prefix
    ++ (if flags.zeropad && not flags.left then replicate size b'0' else [])
    ++ replicate (precision - length tmp) b'0'
    ++ reversed tmp []
    ++ (if flags.left then replicate size b' ' else [])

-- `none` is the null pointer for a base that has no digits.
unfoldable pub number : Value → ℕ → ℕ → ℕ → Flags → Option (List ℕ)
number v base size precision flags =
    if ltb base 2 || ltb 36 base
    then none
    else some (
        lay_out flags (sign_text flags v) (special_text flags base) (tmp flags base v) size
          precision)
