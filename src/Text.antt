-- ===== src/Text.antt =====
-- `std::string` as a list of bytes, its comparison, and `std::to_string(int)`.
pub mod Equality
pub mod Decimal
pub mod Number
use Prim.Native.Char.{code}
use Prim.Native.String.{String}
use console_calculator.Prelude.{
  ℕ, zero, suc, ◌+◌, ◌/◌, ◌%◌, Bool, true, false, ◌&&◌, List, [], ◌∷◌, ◌++◌, ltb, ◌==◌,
  if◌then◌else◌,
}
use console_calculator.Prelude.Int.{ℤ, pos, negsuc}

abbrev pub Text : Type 0
Text = List ℕ

-- The code points of a literal; the literals of the program are ASCII, so these are its bytes.
abbrev pub codes : String → Text
codes String.[] = []
codes (String.◌∷◌ c s) = code c ∷ codes s

-- `operator==` of `std::string`
infix 50 ◌===◌
unfoldable pub ◌===◌ : Text → Text → Bool
[] === [] = true
[] === (c ∷ t) = false
(c ∷ s) === [] = false
(c ∷ s) === (d ∷ t) = c == d && s === t

unfoldable pub is_empty : Text → Bool
is_empty [] = true
is_empty (c ∷ s) = false

-- What a function that takes a C string reads of `c_str()`: the bytes before the first NUL.
unfoldable pub c_str : Text → Text
c_str [] = []
c_str (c ∷ s) = let rest = c_str s in if c == 0 then [] else c ∷ rest

-- The decimal digits of `n`, at most `f + 1` of them.
unfoldable pub digits : ℕ → ℕ → Text
digits zero n = (b'0' + n % 10) ∷ []
digits (suc f) n =
    let more = digits f (n / 10) ++ (b'0' + n % 10) ∷ [] in
    if ltb n 10 then (b'0' + n) ∷ [] else more

-- `n` has fewer than `n + 1` digits, so the fuel is enough.
unfoldable pub to_string : ℤ → Text
to_string (pos n) = digits n n
to_string (negsuc n) = b'-' ∷ digits (suc n) (suc n)
