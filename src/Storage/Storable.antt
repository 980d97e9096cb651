-- ===== src/Storage/Storable.antt =====
-- What the columns of the history table hold of a record.
use console_calculator.Prelude.{◌<◌, Option, none, some, All}
use console_calculator.Prelude.Int.{ℤ, InInt}
use console_calculator.Text.{Text}
use console_calculator.Storage.{OperationRecord}

abbrev pub FitsOptional : Option ℤ → Type 0
FitsOptional none = Unit {0}
FitsOptional (some a) = InInt a

-- A C string ends at its first zero.
abbrev pub HasNoZero : Text → Type 0
HasNoZero = All (λ c. 0 < c)

-- 32-bit integers, and texts that are C strings.
abbrev pub IsStorable : OperationRecord → Type 0
IsStorable r =
    InInt r.first_number
    × FitsOptional r.second_number
    × HasNoZero r.operation
    × FitsOptional r.result
    × InInt r.status
    × HasNoZero r.cache_key
