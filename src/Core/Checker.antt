-- ===== src/Core/Checker.antt =====
-- core/src/checker.cpp: the test of the arguments before a calculation.
pub mod Laws
use console_calculator.Prelude.{Bool, true, not, ◌&&◌, if◌then◌else◌}
use console_calculator.Prelude.Int.{ℤ, pos, ltb_ℤ, eqb_ℤ}
use console_calculator.Text.{codes}
use console_calculator.Support.{
  Result, returned, thrown, calculator_exception, to_int, error_missing_operation,
  error_missing_first_number, error_negative_factorial, error_missing_second_number,
  error_negative_power,
}
use console_calculator.Core.{
  CalculatorData, is_none_code, is_factorial_code, is_exponentiation_code,
}

-- `check_arguments` reads the data and changes nothing.
unfoldable pub check_arguments : CalculatorData → Result (Unit {0})
check_arguments d =
    if not (eqb_ℤ d.need_help (pos 0))
    then returned tt
    else if is_none_code d.operation
    then thrown
        (calculator_exception (to_int error_missing_operation) (codes "Operation is missing."))
    else if eqb_ℤ d.has_first_number (pos 0)
    then thrown (
        calculator_exception (to_int error_missing_first_number) (codes "First number is missing."))
    else if is_factorial_code d.operation
    then if ltb_ℤ d.first_number (pos 0)
      then thrown (
          calculator_exception (to_int error_negative_factorial)
            (codes "Factorial argument must be non-negative."))
      else returned tt
    else if eqb_ℤ d.has_second_number (pos 0)
    then thrown (
        calculator_exception (to_int error_missing_second_number)
          (codes "Second number is missing."))
    else if is_exponentiation_code d.operation && ltb_ℤ d.second_number (pos 0)
    then thrown (
        calculator_exception (to_int error_negative_power)
          (codes "Negative power is not supported."))
    else returned tt
