-- ===== src/Core/Abacus.antt =====
-- core/src/abacus.cpp: the calculation, over the arithmetic library.
use console_calculator.Prelude.{ℕ, not, Option, none, some, if◌then◌else◌}
use console_calculator.Prelude.Int.{ℤ, pos, eqb_ℤ}
use console_calculator.Text.{codes}
use console_calculator.Support.{ErrorCode, returned, thrown, calculator_exception, to_int}
use console_calculator.Support.Exec.{Exec}
use console_calculator.Core.{
  CalculatorData, OperationCode, operation_none, operation_addition, operation_subtraction,
  operation_multiplication, operation_division, operation_exponentiation, operation_factorial,
}

-- The status that the arithmetic library returns, by the constants that abacus.cpp names.
pub data MathError : Type 0 where
  error_none error_overflow error_division_by_zero error_invalid_arguments : MathError
  other : ℕ → MathError

-- A function of the library takes its operands and the value that `*result` holds, and gives its
-- status and the value that it leaves in `*result`.
pub record MathLib : Type 0 where
  pub addition : ℤ → ℤ → ℤ → MathError × ℤ
  pub subtraction : ℤ → ℤ → ℤ → MathError × ℤ
  pub multiplication : ℤ → ℤ → ℤ → MathError × ℤ
  pub division : ℤ → ℤ → ℤ → MathError × ℤ
  pub exponentiation : ℤ → ℤ → ℤ → MathError × ℤ
  pub factorial : ℤ → ℤ → MathError × ℤ

-- The cases for `ERROR_INVALID_ARGUMENTS` and `default` are one.
unfoldable pub map_math_error : MathError → ℤ
map_math_error MathError.error_none = to_int ErrorCode.error_none
map_math_error MathError.error_overflow = to_int ErrorCode.error_overflow
map_math_error MathError.error_division_by_zero = to_int ErrorCode.error_division_by_zero
map_math_error _ = to_int ErrorCode.error_invalid_operation

module _ (M : MathLib) where
  -- The `switch`: the library's function and the arguments for each code; `none` is its `default`.
  unfoldable pub run_operation : OperationCode → ℤ → ℤ → ℤ → Option (MathError × ℤ)
  run_operation operation_addition a b result = some (M.addition a b result)
  run_operation operation_subtraction a b result = some (M.subtraction a b result)
  run_operation operation_multiplication a b result = some (M.multiplication a b result)
  run_operation operation_division a b result = some (M.division a b result)
  run_operation operation_exponentiation a b result = some (M.exponentiation a b result)
  run_operation operation_factorial a b result = some (M.factorial a result)
  run_operation operation_none a b result = none

  -- What follows the `switch`, on the status that it left.
  abbrev pub finish_calculation : MathError × ℤ → Exec CalculatorData (Unit {0})
  finish_calculation (status, result) d =
      let mapped_error = map_math_error status in
      let d' = record d { result = result } in
      if not (eqb_ℤ mapped_error (to_int ErrorCode.error_none))
      then (thrown (calculator_exception mapped_error (codes "Calculation failed.")), d')
      else (returned tt, d')

  unfoldable pub calculate_result : Exec CalculatorData (Unit {0})
  calculate_result d =
      if not (eqb_ℤ d.need_help (pos 0))
      then (returned tt, d)
      else elim (run_operation d.operation d.first_number d.second_number d.result) [
        | none ↦ (
          thrown (
              calculator_exception (to_int ErrorCode.error_invalid_operation)
                (codes "Unknown operation code.")),
          d,
        )
        | some outcome ↦ finish_calculation outcome d
      ]
