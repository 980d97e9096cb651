-- ===== src/Protocol.antt =====
-- The enumerations of the shared protocol library, by the names that request-handler.cpp uses;
-- `other` stands for the enumerators that it does not name.
use console_calculator.Prelude.{ℕ}

pub data ProtocolOperation : Type 0 where
  addition subtraction multiplication division exponentiation factorial unknown : ProtocolOperation
  other : ℕ → ProtocolOperation

pub data ProtocolStatus : Type 0 where
  ok operand_out_of_range invalid_operation operands_count_mismatch invalid_operands
        division_by_zero factorial_of_negative_number numeric_overflow storage_error invalid_json
        calculation_error internal_error unknown_error :
      ProtocolStatus
  other : ℕ → ProtocolStatus

pub data ResultSource : Type 0 where
  cache calculated : ResultSource
