-- ===== src/Tests/Handler.antt =====
-- tests/request_handler_tests.cpp, and the theorems about the handler at concrete requests.
use console_calculator.Prelude.{◌≡◌, refl, Option, none, some, [], ◌∷◌, arith}
use console_calculator.Prelude.Int.{ℤ, pos, ◌+ℤ◌, ◌-ℤ◌, ◌*ℤ◌}
use console_calculator.Text.{Text, codes, to_string, digits, ◌===◌, is_empty}
use console_calculator.Protocol.{ProtocolOperation, ProtocolStatus, ResultSource}
use console_calculator.Support.{Result, returned, of_int}
use console_calculator.Core.Checker.{check_arguments}
use console_calculator.Core.Abacus.{calculate_result, run_operation, map_math_error}
use console_calculator.Storage.{OperationRecord}
use console_calculator.Storage.Table
use console_calculator.Storage.Table.{Table}
use console_calculator.Storage.OperationKey.{make, symbol_for, is_factorial, is_commutative}
use console_calculator.Storage.OperationKey.Kinds.{Kind}
use console_calculator.Server.InMemoryOperationStorage
use console_calculator.Server.InMemoryOperationStorage.{
  in_memory_storage, in_memory_storage-IsReliable,
}
use console_calculator.Server.RequestHandler.{
  fits_int64_to_int, to_internal_operation, operation_to_storage_name, to_calculator_data,
  second_number_for_storage, is_storable_operation, make_operation_record, map_internal_error,
}
use console_calculator.Server.RequestHandler.Handle.{
  make_failure, with_field, recover, cached_response, save_record, save_success, store_failure,
  rescue, calculate, answer_request, respond,
}
use console_calculator.Server.RequestHandler.Meaning.{evaluate}
use console_calculator.Server.OperationStorage.{IsReliable}
use console_calculator.Server.RequestHandler.Right.{IsRight}
use console_calculator.Server.RequestHandler.Sound.{empty-IsSound}
use console_calculator.Server.RequestHandler.Answers.{Carries, answer_of}
use console_calculator.Server.RequestHandler.Transparency.{Delivers, respond_transparent}
use console_calculator.Server.RequestHandler.Total.{Settles, respond-Settles}
use console_calculator.Server.RequestHandler.History.{
  after, respond-after, zero_key, respond_bare_factorial,
}
use console_calculator.Tests.Instances.{
  Request, Response, safe_math, safe_math-IsArithmetic, power_ℤ, factorial_ℕ, plain_protocol,
  plain_protocol-IsLawful, parse, parse-ne-undefined,
}

abbrev pub in_memory : IsReliable (IsRight safe_math) in_memory_storage
in_memory = in_memory_storage-IsReliable (IsRight safe_math)

run : Text → Table → Result Response × Table
unfolding respond answer_request calculate rescue store_failure save_success save_record
    cached_response recover with_field make_failure make_operation_record is_storable_operation
    second_number_for_storage to_calculator_data operation_to_storage_name to_internal_operation
    fits_int64_to_int map_internal_error of_int check_arguments calculate_result run_operation
    map_math_error make symbol_for is_factorial is_commutative to_string digits ◌===◌ is_empty
    Table.lookup Table.insert_or_assign InMemoryOperationStorage.find InMemoryOperationStorage.save
    parse power_ℤ factorial_ℕ ◌+ℤ◌ ◌-ℤ◌ ◌*ℤ◌
run = respond plain_protocol safe_math in_memory_storage

abbrev response : ProtocolStatus → Option ℤ → Option ResultSource → Result Response
response status value source = returned (record {
  answer = record { answers = codes "req"; status = status; value = value };
  source = source;
  duration = 0;
  field = none;
})

-- CalculatesAdditionThroughProtocolJson
adds :
    (run (b'+' ∷ 2 ∷ 3 ∷ []) []).0
    ≡ response ProtocolStatus.ok (some (pos 5)) (some ResultSource.calculated)
unfolding run
adds = refl

-- ReturnsProtocolErrorForDivisionByZero
divides_by_zero :
    (run (b'/' ∷ 10 ∷ 0 ∷ []) []).0 ≡ response ProtocolStatus.division_by_zero none none
unfolding run
divides_by_zero = refl

-- ReusesCachedResult
reuses :
    (run (b'*' ∷ 5 ∷ 4 ∷ []) (run (b'*' ∷ 4 ∷ 5 ∷ []) []).1).0
    ≡ response ProtocolStatus.ok (some (pos 20)) (some ResultSource.cache)
unfolding run
reuses = refl

-- A factorial without operands, before and after the factorial of 0.
bare_refused : (run (b'!' ∷ []) []).0 ≡ response ProtocolStatus.operands_count_mismatch none none
unfolding run
bare_refused = refl

bare_answered :
    (run (b'!' ∷ []) (run (b'!' ∷ 0 ∷ []) []).1).0
    ≡ response ProtocolStatus.ok (some (pos 1)) (some ResultSource.cache)
unfolding run
bare_answered = refl

abbrev pub product_request : Request
product_request = record {
  id = codes "req";
  operation = ProtocolOperation.multiplication;
  operands = pos 5 ∷ pos 4 ∷ [];
}

pub stays_up : in_memory.IsUp []
unfolding in_memory_storage-IsReliable
stays_up = tt

pub nothing_stored : (key : Text) → in_memory.view [] key ≡ none
unfolding Table.lookup in_memory_storage-IsReliable
nothing_stored key = refl

respond_transparent_example :
    Delivers plain_protocol-IsLawful in_memory safe_math-IsArithmetic
      (answer_of (codes "req") (evaluate safe_math Kind.product (pos 5) (some (pos 4))))
      (respond plain_protocol safe_math in_memory_storage (b'*' ∷ 5 ∷ 4 ∷ []) [])
unfolding parse
respond_transparent_example =
    respond_transparent plain_protocol-IsLawful in_memory safe_math-IsArithmetic (b'*' ∷ 5 ∷ 4 ∷ [])
      product_request Kind.product (pos 5) (pos 4 ∷ []) [] refl refl refl (omega arith)
      (empty-IsSound safe_math in_memory [] stays_up nothing_stored)

respond-Settles_example :
    Settles plain_protocol-IsLawful in_memory safe_math-IsArithmetic
      (respond plain_protocol safe_math in_memory_storage (b'?' ∷ []) [])
respond-Settles_example =
    respond-Settles plain_protocol-IsLawful in_memory safe_math-IsArithmetic (b'?' ∷ []) []
      (parse-ne-undefined (b'?' ∷ []))
      (empty-IsSound safe_math in_memory [] stays_up nothing_stored)

respond-after_example :
    Carries plain_protocol-IsLawful
      (respond plain_protocol safe_math in_memory_storage
        (b'*' ∷ 5 ∷ 4 ∷ [])
        (after plain_protocol safe_math in_memory_storage ((b'*' ∷ 4 ∷ 5 ∷ []) ∷ [] ∷ []) [])).0
      (answer_of (codes "req") (evaluate safe_math Kind.product (pos 5) (some (pos 4))))
unfolding parse
respond-after_example =
    respond-after plain_protocol-IsLawful in_memory safe_math-IsArithmetic parse-ne-undefined
      ((b'*' ∷ 4 ∷ 5 ∷ []) ∷ [] ∷ []) [] (b'*' ∷ 5 ∷ 4 ∷ []) product_request Kind.product (pos 5)
      (pos 4 ∷ []) stays_up nothing_stored refl refl refl (omega arith)

-- The record that the factorial of 0 leaves.
abbrev zero_record : OperationRecord
zero_record = record {
  first_number = pos 0;
  second_number = none;
  operation = codes "fact";
  result = some (pos 1);
  status = pos 0;
  cache_key = zero_key;
}

respond_bare_factorial_example :
    Carries plain_protocol-IsLawful
      (respond plain_protocol safe_math in_memory_storage
        (b'!' ∷ [])
        ((zero_key, zero_record) ∷ [])).0
      (answer_of (codes "req") (returned (pos 1)))
    × Carries plain_protocol-IsLawful
        (respond plain_protocol safe_math in_memory_storage (b'!' ∷ []) []).0
        (record {
          answers = codes "req";
          status = ProtocolStatus.operands_count_mismatch;
          value = none;
        })
unfolding parse Table.lookup in_memory_storage-IsReliable to_string digits ◌===◌ is_empty
respond_bare_factorial_example =
    respond_bare_factorial safe_math plain_protocol-IsLawful in_memory (b'!' ∷ [])
      (record { id = codes "req"; operation = ProtocolOperation.factorial; operands = [] })
      ((zero_key, zero_record) ∷ []) [] zero_record (pos 1) refl refl refl refl (refl, refl) refl
