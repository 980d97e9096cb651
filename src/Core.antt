-- ===== src/Core.antt =====
-- core/include: the operation codes, `CalculatorData`, and the arithmetic library that core calls.
pub mod Checker
pub mod Abacus
use console_calculator.Prelude.{Bool, true, false}
use console_calculator.Prelude.Int.{ℤ, pos}
use console_calculator.Support.{ErrorCode, error_none}

pub data OperationCode : Type 0 where
  operation_none operation_addition operation_subtraction operation_multiplication
        operation_division operation_exponentiation operation_factorial :
      OperationCode

pub record CalculatorData : Type 0 where
  pub first_number : ℤ
  pub second_number : ℤ
  pub result : ℤ
  pub has_first_number : ℤ
  pub has_second_number : ℤ
  pub operation : OperationCode
  pub error_code : ErrorCode
  pub need_help : ℤ

-- `Types::CalculatorData data;` with the default member initialisers
abbrev pub initial_data : CalculatorData
initial_data = record {
  first_number = pos 0;
  second_number = pos 0;
  result = pos 0;
  has_first_number = pos 0;
  has_second_number = pos 0;
  operation = operation_none;
  error_code = error_none;
  need_help = pos 0;
}

abbrev pub is_factorial_code : OperationCode → Bool
is_factorial_code operation_factorial = true
is_factorial_code _ = false

abbrev pub is_none_code : OperationCode → Bool
is_none_code operation_none = true
is_none_code _ = false

abbrev pub is_exponentiation_code : OperationCode → Bool
is_exponentiation_code operation_exponentiation = true
is_exponentiation_code _ = false
