-- ===== src/Server/ServerConfig/Strings.antt =====
-- The text functions of server/src/server-config.cpp.
pub mod Trim
use console_calculator.Prelude.{
  ℕ, ◌≡◌, Bool, true, false, ◌&&◌, ◌||◌, Option, none, some, List, [], ◌∷◌, ◌++◌, ◌==◌,
  if◌then◌else◌, ltb,
}
use mathlib.Core.List.{reverse}
use console_calculator.Text.{Text, codes}
use console_calculator.Text.Number.{stoul}
use console_calculator.Support.{Result, returned, thrown, std_exception}
use console_calculator.Support.Exec.{chain}

-- The `is_space` of `trim`: blank, tab, line feed and carriage return.
abbrev pub is_blank : ℕ → Bool
is_blank c = c == b' ' || (c == 9 || (c == 10 || c == 13))

-- `erase(begin(), find_if(…))`
unfoldable pub erase_blanks : Text → Text
erase_blanks [] = []
erase_blanks (c ∷ s) = let rest = erase_blanks s in if is_blank c then rest else c ∷ s

unfoldable pub trim : Text → Text
trim value = reverse (erase_blanks (reverse (erase_blanks value)))

-- The text without its last character, and that character.
unfoldable pub unsnoc : ℕ → Text → Text × ℕ
unsnoc c [] = ([], c)
unsnoc c (d ∷ s) = let (inner, last) = unsnoc d s in (c ∷ inner, last)

-- `size() >= 2`, `front()`, `back()` and `substr(1, size() - 2)` are read off a text of two
-- characters at least.
unfoldable pub strip_quotes : Text → Text
strip_quotes [] = []
strip_quotes (c ∷ []) = c ∷ []
strip_quotes (c ∷ d ∷ s) =
    let (inner, last) = unsnoc d s in
    if (c == 34 && last == 34) || (c == 39 && last == 39) then inner else c ∷ d ∷ s

unfoldable pub unquote : Text → Text
unquote value = strip_quotes (trim value)

-- The body of the loop of `libpq_escape_value`.
unfoldable pub escape_all : Text → Text
escape_all [] = []
escape_all (c ∷ s) = let rest = c ∷ escape_all s in if c == 92 || c == 39 then 92 ∷ rest else rest

unfoldable pub libpq_escape_value : Text → Text
libpq_escape_value value = 39 ∷ escape_all value ++ 39 ∷ []

unfoldable pub parse_uint16 : Text → Text → Result ℕ
parse_uint16 value field_name = chain (stoul value) (λ parsed.
    if ltb 65535 parsed
    then thrown (std_exception (field_name ++ codes " is out of uint16 range"))
    else returned parsed)
