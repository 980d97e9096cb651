-- ===== src/Tests/Core.antt =====
-- tests/checker_tests.cpp, and the theorems about core at concrete data.
use console_calculator.Prelude.{some, ◌≡◌, ◌≢◌, refl, ◌↔◌, ◌⊎◌}
use console_calculator.Prelude.Int.{◌-ℤ◌, pos, negsuc}
use console_calculator.Text.{codes}
use console_calculator.Support.{
  returned, thrown, calculator_exception, to_int, error_missing_operation, error_negative_factorial,
}
use console_calculator.Core.{CalculatorData, initial_data, operation_division, operation_factorial}
use console_calculator.Core.Checker.{check_arguments}
use console_calculator.Core.Checker.Laws.{HasArguments, check_arguments-HasArguments}
use console_calculator.Storage.OperationKey.Kinds.{Kind}
use console_calculator.Server.RequestHandler.Meaning.{evaluate}
use console_calculator.Server.RequestHandler.Given.{given}
use console_calculator.Server.RequestHandler.Checked.{
  check_and_calculate, check_and_calculate-evaluate,
}
use console_calculator.Tests.Instances.{safe_math}

-- ThrowsWhenOperationMissing
missing_operation :
    check_arguments (record initial_data { first_number = pos 10; has_first_number = pos 1 })
    ≡ thrown (calculator_exception (to_int error_missing_operation) (codes "Operation is missing."))
unfolding check_arguments
missing_operation = refl

-- ThrowsForNegativeFactorial
negative_factorial :
    check_arguments (record initial_data {
      first_number = negsuc 0;
      has_first_number = pos 1;
      operation = operation_factorial;
    })
    ≡ thrown (
        calculator_exception
          (to_int error_negative_factorial)
          (codes "Factorial argument must be non-negative."))
unfolding check_arguments
negative_factorial = refl

abbrev division_data : CalculatorData
division_data = record initial_data {
  first_number = pos 4;
  second_number = pos 2;
  has_first_number = pos 1;
  has_second_number = pos 1;
  operation = operation_division;
}

check_arguments-HasArguments_example :
    (check_arguments division_data ≡ returned tt)
    ↔ ((pos 0 ≢ pos 0) ⊎ HasArguments operation_division division_data)
check_arguments-HasArguments_example = check_arguments-HasArguments division_data

-- 2 - 5 is the difference of its operands in their order, and 1 / 0 is refused by the library.
check_and_calculate-evaluate_example :
    check_and_calculate safe_math (given Kind.difference (pos 2) (some (pos 5)))
    ≡ evaluate safe_math Kind.difference (pos 2) (some (pos 5))
check_and_calculate-evaluate_example =
    check_and_calculate-evaluate safe_math Kind.difference (pos 2) (pos 5)

difference_value : evaluate safe_math Kind.difference (pos 2) (some (pos 5)) ≡ returned (negsuc 2)
unfolding ◌-ℤ◌
difference_value = refl

by_zero_refused :
    evaluate safe_math Kind.quotient (pos 1) (some (pos 0))
    ≡ thrown (calculator_exception (pos 7) (codes "Calculation failed."))
by_zero_refused = refl
