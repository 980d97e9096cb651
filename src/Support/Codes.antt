-- ===== src/Support/Codes.antt =====
-- The conversions between the error codes and `int`.
use console_calculator.Prelude.{◌≤◌, ◌<◌, ◌≡◌, refl, arith}
use console_calculator.Support.{ErrorCode, to_int, of_int, error_none, unnamed}

-- The enumerators, and the values from 13 that fit a byte.
abbrev pub FitsByte : ErrorCode → Type 0
FitsByte (unnamed n) = (13 ≤ n) × (n < 256)
FitsByte _ = Unit

pub of_int-to_int : (c : ErrorCode) → FitsByte c → of_int (to_int c) ≡ c
unfolding of_int
of_int-to_int error_none h = refl
of_int-to_int (unnamed n) h = ground arith
of_int-to_int _ h = refl
