-- ===== src/Support.antt =====
-- support/: the error codes, and exceptions as values. A C++ function that may throw returns a
-- `Result`; a statement with undefined behaviour ends in `undefined`, which no handler catches.
pub mod Codes
pub mod Exec
pub mod Logger
use console_calculator.Prelude.{
  ℕ, zero, suc, ◌-◌, ◌%◌, ◌≡◌, refl, ◌⊎◌, inl, inr, Option, ◌==◌, if◌then◌else◌,
}
use console_calculator.Prelude.Int.{ℤ, pos, negsuc}
use console_calculator.Text.{Text}
use console_calculator.Protocol.{ProtocolStatus}

-- A value of the `uint8_t` enumeration that no enumerator names is `unnamed`.
pub data ErrorCode : Type 0 where
  error_none error_unknown_option error_invalid_number error_missing_first_number
        error_missing_second_number error_missing_operation error_invalid_operation
        error_division_by_zero error_negative_factorial error_negative_power error_overflow
        error_invalid_json error_storage :
      ErrorCode
  unnamed : ℕ → ErrorCode

-- `static_cast<int>(code)`
abbrev pub to_int : ErrorCode → ℤ
to_int error_none = pos 0
to_int error_unknown_option = pos 1
to_int error_invalid_number = pos 2
to_int error_missing_first_number = pos 3
to_int error_missing_second_number = pos 4
to_int error_missing_operation = pos 5
to_int error_invalid_operation = pos 6
to_int error_division_by_zero = pos 7
to_int error_negative_factorial = pos 8
to_int error_negative_power = pos 9
to_int error_overflow = pos 10
to_int error_invalid_json = pos 11
to_int error_storage = pos 12
to_int (unnamed n) = pos n

-- The conversion of an `int` to `uint8_t` keeps it modulo 256.
abbrev pub to_uint8 : ℤ → ℕ
to_uint8 (pos n) = n % 256
to_uint8 (negsuc n) = 255 - n % 256

of_uint8 : ℕ → ErrorCode
of_uint8 n =
    if n == 0
    then error_none
    else if n == 1
    then error_unknown_option
    else if n == 2
    then error_invalid_number
    else if n == 3
    then error_missing_first_number
    else if n == 4
    then error_missing_second_number
    else if n == 5
    then error_missing_operation
    else if n == 6
    then error_invalid_operation
    else if n == 7
    then error_division_by_zero
    else if n == 8
    then error_negative_factorial
    else if n == 9
    then error_negative_power
    else if n == 10
    then error_overflow
    else if n == 11
    then error_invalid_json
    else if n == 12
    then error_storage
    else unnamed n

-- `static_cast<ErrorCode>(error_code)`
unfoldable pub of_int : ℤ → ErrorCode
unfolding of_uint8
of_int a = of_uint8 (to_uint8 a)

-- What the program throws. `std_exception` is any other exception of the standard library's classes,
-- and `foreign` is one of no such class.
pub data Exception : Type 0 where
  protocol_error : ProtocolStatus → Text → Option Text → Exception
  calculator_exception : ℤ → Text → Exception
  std_exception : Text → Exception
  foreign : Exception

pub data Result {ℓ} (A : Type ℓ) : Type ℓ where
  returned : A → Result A
  thrown : Exception → Result A
  undefined : Result A

-- To split on a result and keep the equation.
pub Result-cases {ℓ} :
    {A : Type ℓ} (r : Result A)
    → ((a : A) × (r ≡ returned a)) ⊎ ((e : Exception) × (r ≡ thrown e)) ⊎ (r ≡ undefined)
Result-cases (returned a) = inl (a, refl)
Result-cases (thrown e) = inr (inl (e, refl))
Result-cases undefined = inr (inr refl)
