-- ===== src/Server/RequestHandler/Given.antt =====
-- The handler on the data of a request of a known kind with a first operand.
use console_calculator.Prelude.{
  ◌≡◌, refl, true, Option, none, some, List, [], ◌∷◌, arith, if◌then◌else◌,
}
use console_calculator.Prelude.Int.{ℤ, pos, eqb_ℤ, InInt}
use console_calculator.Text.{Text}
use console_calculator.Support.{ErrorCode, returned}
use console_calculator.Core.{CalculatorData}
use console_calculator.Core.Checker.{check_arguments}
use console_calculator.Core.Abacus.{MathLib, calculate_result, finish_calculation, run_operation}
use console_calculator.Storage.{OperationRecord}
use console_calculator.Storage.OperationKey.Kinds.{
  Kind, sum, power, factorial, word, word-Names, key_of, make-key_of,
}
use console_calculator.Server.RequestHandler.{
  fits_int64_to_int, to_calculator_data, to_internal_operation, operation_to_storage_name,
  second_number_for_storage, is_storable_operation, make_operation_record,
}
use console_calculator.Server.RequestHandler.Meaning.{
  operation_of, code_of, second_of, operand_of, or_zero, admit, call,
}

-- The data of a request.
abbrev pub given : Kind → ℤ → Option ℤ → CalculatorData
given k a x = record {
  first_number = a;
  second_number = or_zero x;
  result = pos 0;
  has_first_number = pos 1;
  has_second_number = elim x [ none ↦ pos 0 | some b ↦ pos 1 ];
  operation = code_of k;
  error_code = ErrorCode.error_none;
  need_help = pos 0;
}

-- The operands that the handler reads fit `int`.
abbrev pub Fits : ℤ → Option ℤ → Type 0
Fits a none = InInt a
Fits a (some b) = InInt a × InInt b

fits_lem : (a : ℤ) → InInt a → fits_int64_to_int a ≡ true
unfolding fits_int64_to_int
fits_lem a h = ground arith

pub to_calculator_data-given :
    (k : Kind) (a : ℤ) (rest : List ℤ)
    → Fits a (second_of rest)
    → to_calculator_data (operation_of k) (a ∷ rest) ≡ returned (given k a (second_of rest))
unfolding to_calculator_data to_internal_operation
to_calculator_data-given sum a [] h = rw (fits_lem a h)
to_calculator_data-given k a [] h = rw (fits_lem a h)
to_calculator_data-given sum a (b ∷ rest) h = rw (fits_lem a h.0, fits_lem b h.1)
to_calculator_data-given _ a (b ∷ rest) h = rw (fits_lem a h.0, fits_lem b h.1)

pub operation_to_storage_name-word :
    (k : Kind) → operation_to_storage_name (operation_of k) ≡ returned (word k)
unfolding operation_to_storage_name
operation_to_storage_name-word sum = refl
operation_to_storage_name-word _ = refl

-- The handler changes the result and the error code of the data, and nothing that a record's key or
-- the test on storing reads.
abbrev pub left : Kind → ℤ → Option ℤ → ℤ → ErrorCode → CalculatorData
left k a x v e = record (given k a x) { result = v; error_code = e }

pub second_number-given :
    (k : Kind) (a : ℤ) (x : Option ℤ) (v : ℤ) (e : ErrorCode)
    → second_number_for_storage (left k a x v e) ≡ operand_of k x
unfolding second_number_for_storage
second_number-given sum a none v e = refl
second_number-given sum a (some b) v e = refl
second_number-given _ a none v e = refl
second_number-given _ a (some b) v e = refl

-- A calculation that has a key passes the checker exactly if its operands are admitted.
pub check_arguments-given :
    (k : Kind) (a : ℤ) (x : Option ℤ) {key : Text}
    → key_of k a (operand_of k x) ≡ returned key
    → check_arguments (given k a x) ≡ admit k a x
unfolding check_arguments
check_arguments-given factorial a none h = refl
check_arguments-given factorial a (some b) h = refl
check_arguments-given power a (some b) h = refl
check_arguments-given k a none h = cc
check_arguments-given _ a (some b) h = refl

pub is_storable-given :
    (k : Kind) (a : ℤ) (x : Option ℤ) (v : ℤ) (e : ErrorCode) {key : Text}
    → key_of k a (operand_of k x) ≡ returned key
    → is_storable_operation (left k a x v e) ≡ true
unfolding is_storable_operation
is_storable-given factorial a none v e h = refl
is_storable-given factorial a (some b) v e h = refl
is_storable-given k a none v e h = cc
is_storable-given _ a (some b) v e h = refl

pub calculate_result-given :
    (M : MathLib) (k : Kind) (a : ℤ) (x : Option ℤ)
    → calculate_result M (given k a x) ≡ finish_calculation M (call M k a (or_zero x)) (given k a x)
unfolding calculate_result run_operation
calculate_result-given M sum a x = refl
calculate_result-given M _ a x = refl

-- The record that the handler makes for an outcome.
abbrev pub record_of : Kind → ℤ → Option ℤ → ℤ → Option ℤ → Text → OperationRecord
record_of k a x status result key = record {
  first_number = a;
  second_number = operand_of k x;
  operation = word k;
  result = result;
  status = status;
  cache_key = key;
}

pub make_operation_record-given :
    (k : Kind) (a : ℤ) (x : Option ℤ) (v : ℤ) (e : ErrorCode) (status : ℤ) {key : Text}
    → key_of k a (operand_of k x) ≡ returned key
    → make_operation_record (left k a x v e) status (word k)
      ≡ returned (record_of k a x status (if eqb_ℤ status (pos 0) then some v else none) key)
unfolding make_operation_record
make_operation_record-given k a x v e status h =
    rw (second_number-given k a x v e, make-key_of (word k) k a (operand_of k x) (word-Names k), h)
