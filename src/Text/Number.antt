-- ===== src/Text/Number.antt =====
-- `std::stoi`, `std::stoul` and `std::stoull` in base ten: leading white space, an optional sign, the
-- longest run of digits; what follows the digits is ignored. `long` has 64 bits.
pub mod RoundTrip
use console_calculator.Prelude.{
  ℕ, ◌+◌, ◌-◌, ◌*◌, ◌%◌, ◌^◌, Bool, true, false, ◌&&◌, ◌||◌, not, Option, none, some, List, [], ◌∷◌,
  ltb, leb, ◌==◌, if◌then◌else◌,
}
use console_calculator.Prelude.Int.{ℤ, pos, negsuc, sub_ℕ, ltb_ℤ, int_min, int_max}
use console_calculator.Text.{Text, codes}
use console_calculator.Support.{Result, returned, thrown, std_exception}

-- `isspace` of the "C" locale: the blank, and the codes from `\t` to `\r`.
abbrev pub is_space : ℕ → Bool
is_space c = c == b' ' || leb 9 c && leb c 13

abbrev pub is_digit : ℕ → Bool
is_digit c = leb b'0' c && leb c b'9'

unfoldable pub skip_spaces : Text → Text
skip_spaces [] = []
skip_spaces (c ∷ s) = let rest = skip_spaces s in if is_space c then rest else c ∷ s

-- The number that the leading digits spell behind `n`.
unfoldable pub read_digits : ℕ → Text → ℕ
read_digits n [] = n
read_digits n (c ∷ s) =
    let more = read_digits (n * 10 + (c - b'0')) s in if is_digit c then more else n

-- The magnitude, if there is a digit.
unfoldable pub read_magnitude : Text → Option ℕ
read_magnitude [] = none
read_magnitude (c ∷ s) = if is_digit c then some (read_digits 0 (c ∷ s)) else none

-- Whether a minus sign stands in front, and the magnitude.
unfoldable pub read_signed : Text → Bool × Option ℕ
read_signed [] = (false, none)
read_signed (c ∷ s) =
    if c == b'-'
    then (true, read_magnitude s)
    else (false, if c == b'+' then read_magnitude s else read_magnitude (c ∷ s))

abbrev pub signed : Bool → ℕ → ℤ
signed minus n = if minus then sub_ℕ 0 n else sub_ℕ n 0

-- What `std::stoi` makes of a sign and a magnitude.
abbrev pub in_int : Bool × Option ℕ → Result ℤ
in_int (minus, none) = thrown (std_exception (codes "stoi"))
in_int (minus, some n) =
    let v = signed minus n in
    if ltb_ℤ v int_min || ltb_ℤ int_max v then thrown (std_exception (codes "stoi")) else returned v

unfoldable pub stoi : Text → Result ℤ
stoi s = in_int (read_signed (skip_spaces s))

-- `strtoul` negates a number with a minus sign modulo 2^64; out of range is what exceeds 2^64 - 1.
abbrev pub in_unsigned : Text → Bool × Option ℕ → Result ℕ
in_unsigned name (minus, none) = thrown (std_exception name)
in_unsigned name (minus, some n) =
    if ltb 18446744073709551615 n
    then thrown (std_exception name)
    else returned (if minus then (18446744073709551616 - n) % 18446744073709551616 else n)

unfoldable pub stoul : Text → Result ℕ
stoul s = in_unsigned (codes "stoul") (read_signed (skip_spaces s))

unfoldable pub stoull : Text → Result ℕ
stoull s = in_unsigned (codes "stoull") (read_signed (skip_spaces s))
