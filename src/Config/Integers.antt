-- ===== src/Config/Integers.antt =====
-- Python's `int` on a text, as config.py uses it. `digit` is the Unicode table of decimal digits.
use Prim.Native.Nat.{zero, suc}
use mathlib.Core.List.{foldl}
use mcpgate.Prelude.{
  ℕ, ◌+◌, ◌*◌, String, Bool, true, false, Option, none, some, ℤ, pos, negsuc, nat_eq, leb, ◌&&◌,
  not, if◌then◌else◌,
}
use mcpgate.Gateway.Validate.{codes, is_space}

-- How far the text is read: the spaces before, a sign, digits, an underscore between two of them, the
-- spaces behind. `negative` is the sign, `n` the number so far and `count` its digits.
pub data Reading : Type 0 where
  blank failed : Reading
  signed : Bool → Reading
  digits joint ended : Bool → ℕ → ℕ → Reading

unfoldable pub add_digit : Reading → ℕ → Reading
add_digit blank d = digits false d 1
add_digit failed d = failed
add_digit (signed negative) d = digits negative d 1
add_digit (digits negative n count) d = digits negative (n * 10 + d) (count + 1)
add_digit (joint negative n count) d = digits negative (n * 10 + d) (count + 1)
add_digit (ended negative n count) d = failed

add_space : Reading → Reading
add_space blank = blank
add_space (digits negative n count) = ended negative n count
add_space (ended negative n count) = ended negative n count
add_space _ = failed

add_sign : Bool → Reading → Reading
add_sign negative blank = signed negative
add_sign negative _ = failed

add_underscore : Reading → Reading
add_underscore (digits negative n count) = joint negative n count
add_underscore _ = failed

digit_or_fail : Reading → Option ℕ → Reading
unfolding add_digit
digit_or_fail r none = failed
digit_or_fail r (some d) = add_digit r d

-- Of the code points below 127 only those are spaces that C has for it.
is_int_space : ℕ → Bool
unfolding is_space
is_int_space c = is_space c && not (leb 28 c && leb c 31)

unfoldable pub read_code : (ℕ → Option ℕ) → Reading → ℕ → Reading
unfolding digit_or_fail add_space add_sign add_underscore is_int_space
read_code digit r c =
    if is_int_space c
    then add_space r
    else if nat_eq c b'+'
    then add_sign false r
    else if nat_eq c b'-'
    then add_sign true r
    else if nat_eq c b'_'
    then add_underscore r
    else digit_or_fail r (digit c)

-- `sys.get_int_max_str_digits()`
abbrev pub max_digits : ℕ
max_digits = 4_300

unfoldable pub negated : ℕ → ℤ
negated zero = pos zero
negated (suc n) = negsuc n

pub number : Bool → ℕ → ℕ → Option ℤ
unfolding negated
number negative n count =
    if leb count max_digits then some (if negative then negated n else pos n) else none

unfoldable pub number_of : Reading → Option ℤ
unfolding number
number_of (digits negative n count) = number negative n count
number_of (ended negative n count) = number negative n count
number_of _ = none

-- `none` is a ValueError.
unfoldable pub int : (ℕ → Option ℕ) → String → Option ℤ
unfolding read_code number_of
int digit s = number_of (foldl (read_code digit) blank (codes s))
