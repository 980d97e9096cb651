-- ===== src/Server/RequestHandler.antt =====
-- server/src/request-handler.cpp, over the protocol library, the arithmetic library and a storage.
-- The two clock readings of a call, in nanoseconds, are arguments.
pub mod Handle
pub mod Meaning
pub mod Checked
pub mod Given
pub mod Outcome
pub mod Right
pub mod Sound
pub mod Answers
pub mod Found
pub mod Transparency
pub mod Total
pub mod History
pub mod Deserved
pub mod Honest
pub mod Phases
use console_calculator.Prelude.{
  ℕ, ◌/◌, suc, Bool, true, false, not, ◌&&◌, ◌||◌, Option, none, some, List, [], ◌∷◌, ltb,
  if◌then◌else◌,
}
use console_calculator.Prelude.Int.{
  ℤ, pos, negsuc, pos_part, ◌-ℤ◌, sub_ℕ, ltb_ℤ, eqb_ℤ, int_min, int_max,
}
use console_calculator.Text.{Text, codes, is_empty}
use console_calculator.Protocol.{ProtocolOperation, ProtocolStatus, ResultSource}
use console_calculator.Support.{
  ErrorCode, Exception, Result, returned, thrown, undefined, protocol_error, calculator_exception,
  std_exception, foreign, to_int, of_int,
}
use console_calculator.Support.Exec.{Exec, pure, raise, lift, chain, ◌>>=◌, ◌>>◌}
use console_calculator.Core.{
  OperationCode, CalculatorData, initial_data, is_none_code, is_factorial_code, operation_addition,
  operation_subtraction, operation_multiplication, operation_division, operation_exponentiation,
  operation_factorial,
}
use console_calculator.Core.Checker.{check_arguments}
use console_calculator.Core.Abacus.{MathLib, calculate_result}
use console_calculator.Storage.{OperationRecord}
use console_calculator.Storage.OperationKey.{make}
use console_calculator.Server.OperationStorage.{OperationStorage}
use console_calculator.Server.ProtocolLib.{ProtocolLib}

-- The constructor: whether there is a storage.
unfoldable pub make_handler : Bool → Result (Unit {0})
make_handler has_storage =
    if has_storage then returned tt else thrown (std_exception (codes "storage must not be null"))

unfoldable pub fits_int64_to_int : ℤ → Bool
fits_int64_to_int value = not (ltb_ℤ value int_min) && not (ltb_ℤ int_max value)

abbrev pub unknown_operation : Exception
unknown_operation =
    protocol_error ProtocolStatus.invalid_operation (codes "unknown operation")
      (some (codes "operation"))

unfoldable pub to_internal_operation : ProtocolOperation → Result OperationCode
to_internal_operation ProtocolOperation.addition = returned operation_addition
to_internal_operation ProtocolOperation.subtraction = returned operation_subtraction
to_internal_operation ProtocolOperation.multiplication = returned operation_multiplication
to_internal_operation ProtocolOperation.division = returned operation_division
to_internal_operation ProtocolOperation.exponentiation = returned operation_exponentiation
to_internal_operation ProtocolOperation.factorial = returned operation_factorial
to_internal_operation _ = thrown unknown_operation

unfoldable pub operation_to_storage_name : ProtocolOperation → Result Text
operation_to_storage_name ProtocolOperation.addition = returned (codes "add")
operation_to_storage_name ProtocolOperation.subtraction = returned (codes "sub")
operation_to_storage_name ProtocolOperation.multiplication = returned (codes "mul")
operation_to_storage_name ProtocolOperation.division = returned (codes "div")
operation_to_storage_name ProtocolOperation.exponentiation = returned (codes "pow")
operation_to_storage_name ProtocolOperation.factorial = returned (codes "fact")
operation_to_storage_name _ = thrown unknown_operation

abbrev pub first_out_of_range : Exception
first_out_of_range =
    protocol_error ProtocolStatus.operand_out_of_range (codes "first operand is outside int range")
      (some (codes "operands[0]"))

abbrev pub second_out_of_range : Exception
second_out_of_range =
    protocol_error ProtocolStatus.operand_out_of_range (codes "second operand is outside int range")
      (some (codes "operands[1]"))

-- The two tests on the operands in `to_calculator_data`.
first_operand : List ℤ → CalculatorData → Result CalculatorData
first_operand [] d = returned d
first_operand (a ∷ rest) d =
    if fits_int64_to_int a
    then returned (record d { first_number = a; has_first_number = pos 1 })
    else thrown first_out_of_range

second_operand : List ℤ → CalculatorData → Result CalculatorData
second_operand (a ∷ b ∷ rest) d =
    if fits_int64_to_int b
    then returned (record d { second_number = b; has_second_number = pos 1 })
    else thrown second_out_of_range
second_operand _ d = returned d

-- The request enters by its operation and its operands.
unfoldable pub to_calculator_data : ProtocolOperation → List ℤ → Result CalculatorData
unfolding first_operand second_operand
to_calculator_data operation operands = chain (to_internal_operation operation) (λ code.
    chain (first_operand operands (record initial_data { operation = code }))
      (second_operand operands))

unfoldable pub second_number_for_storage : CalculatorData → Option ℤ
second_number_for_storage d =
    if is_factorial_code d.operation || eqb_ℤ d.has_second_number (pos 0)
    then none
    else some d.second_number

unfoldable pub is_storable_operation : CalculatorData → Bool
is_storable_operation d =
    if not (eqb_ℤ d.need_help (pos 0))
      || is_none_code d.operation
      || eqb_ℤ d.has_first_number (pos 0)
    then false
    else is_factorial_code d.operation || not (eqb_ℤ d.has_second_number (pos 0))

unfoldable pub make_operation_record : CalculatorData → ℤ → Text → Result OperationRecord
make_operation_record d status operation =
    let second_number = second_number_for_storage d in
    let result = if eqb_ℤ status (to_int ErrorCode.error_none) then some d.result else none in
    chain (make d.first_number second_number operation) (λ cache_key. returned (record {
      first_number = d.first_number;
      second_number = second_number;
      operation = operation;
      result = result;
      status = status;
      cache_key = cache_key;
    }))

status_of_code : ErrorCode → ProtocolStatus
status_of_code ErrorCode.error_none = ProtocolStatus.ok
status_of_code ErrorCode.error_missing_first_number = ProtocolStatus.operands_count_mismatch
status_of_code ErrorCode.error_missing_second_number = ProtocolStatus.operands_count_mismatch
status_of_code ErrorCode.error_invalid_number = ProtocolStatus.invalid_operands
status_of_code ErrorCode.error_missing_operation = ProtocolStatus.invalid_operation
status_of_code ErrorCode.error_invalid_operation = ProtocolStatus.invalid_operation
status_of_code ErrorCode.error_division_by_zero = ProtocolStatus.division_by_zero
status_of_code ErrorCode.error_negative_factorial = ProtocolStatus.factorial_of_negative_number
status_of_code ErrorCode.error_overflow = ProtocolStatus.numeric_overflow
status_of_code ErrorCode.error_storage = ProtocolStatus.storage_error
status_of_code ErrorCode.error_invalid_json = ProtocolStatus.invalid_json
status_of_code ErrorCode.error_negative_power = ProtocolStatus.invalid_operands
status_of_code _ = ProtocolStatus.calculation_error

-- The `switch` is on the `uint8_t` that the code is cast to.
unfoldable pub map_internal_error : ℤ → ProtocolStatus
unfolding status_of_code
map_internal_error error_code = status_of_code (of_int error_code)

-- Nanoseconds to milliseconds, towards zero.
abbrev to_millis : ℤ → ℤ
to_millis (pos n) = pos (n / 1000000)
to_millis (negsuc n) = sub_ℕ 0 (suc n / 1000000)

-- `std::max<std::int64_t>(0, millis)`
unfoldable pub make_timing : ℤ → ℤ → ℕ
unfolding ◌-ℤ◌
make_timing started_at now = pos_part (to_millis (now -ℤ started_at))
