-- ===== src/Core/Checker/Laws.antt =====
-- What `check_arguments` accepts, described without its order of tests, and what it throws.
use console_calculator.Prelude.{◌≡◌, ◌≢◌, ◌↔◌, ◌⊎◌, arith}
use console_calculator.Prelude.Int.{pos, ◌≤ℤ◌}
use console_calculator.Support.{returned}
use console_calculator.Core.{
  OperationCode, CalculatorData, operation_none, operation_factorial, operation_exponentiation,
}
use console_calculator.Core.Checker.{check_arguments}

-- The arguments that an operation needs, with their ranges.
abbrev pub HasArguments : OperationCode → CalculatorData → Type 0
HasArguments operation_none d = ⊥
HasArguments operation_factorial d = (d.has_first_number ≢ pos 0) × (pos 0 ≤ℤ d.first_number)
HasArguments operation_exponentiation d =
    (d.has_first_number ≢ pos 0) × (d.has_second_number ≢ pos 0) × (pos 0 ≤ℤ d.second_number)
HasArguments _ d = (d.has_first_number ≢ pos 0) × (d.has_second_number ≢ pos 0)

accepts :
    (op : OperationCode) (d : CalculatorData)
    → (check_arguments (record d { operation = op }) ≡ returned tt)
      ↔ ((d.need_help ≢ pos 0) ⊎ HasArguments op d)
unfolding check_arguments
accepts operation_none d = ground arith
accepts _ d = ground arith

-- The checker accepts exactly the data that ask for help, or that hold the arguments of their operation.
pub check_arguments-HasArguments :
    (d : CalculatorData)
    → (check_arguments d ≡ returned tt) ↔ ((d.need_help ≢ pos 0) ⊎ HasArguments d.operation d)
check_arguments-HasArguments d = accepts d.operation d
