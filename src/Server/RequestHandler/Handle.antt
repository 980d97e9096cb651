-- ===== src/Server/RequestHandler/Handle.antt =====
-- `RequestHandler::handle`. Every path that returns sets the timing and serialises the response, so
-- these two steps stand once, in `handle`; the paths to the response are `respond`.
use console_calculator.Prelude.{Option, none, some, [], if◌then◌else◌}
use console_calculator.Prelude.Int.{ℤ, eqb_ℤ}
use console_calculator.Text.{Text, codes, is_empty}
use console_calculator.Protocol.{ProtocolStatus, ResultSource}
use console_calculator.Support.{
  ErrorCode, Result, returned, thrown, undefined, protocol_error, calculator_exception,
  std_exception, foreign, to_int, of_int,
}
use console_calculator.Support.Exec.{Exec, pure, raise, lift, chain, ◌>>=◌, ◌>>◌}
use console_calculator.Core.{CalculatorData}
use console_calculator.Core.Checker.{check_arguments}
use console_calculator.Core.Abacus.{MathLib, calculate_result}
use console_calculator.Storage.{OperationRecord}
use console_calculator.Server.OperationStorage.{OperationStorage}
use console_calculator.Server.ProtocolLib.{ProtocolLib}
use console_calculator.Server.RequestHandler.{
  to_calculator_data, operation_to_storage_name, second_number_for_storage, is_storable_operation,
  make_operation_record, map_internal_error, make_timing,
}

-- `catch (const std::exception&)` around a save: the exception is logged and dropped.
abbrev pub drop_std : Result (Unit {0}) → Result (Unit {0})
drop_std (thrown foreign) = thrown foreign
drop_std (thrown _) = returned tt
drop_std r = r

module _ (P : ProtocolLib) where
  unfoldable pub make_failure : Text → ProtocolStatus → Text → P.Response
  make_failure request_id status message =
      P.failure (if is_empty request_id then codes "unknown" else request_id) status message

  -- The field of a protocol error goes into the error information of the response, if it has any.
  unfoldable pub with_field : Option Text → P.Response → P.Response
  with_field none response = response
  with_field (some field) response = elim (P.error_info response) [
    | none ↦ response
    | some info ↦ P.set_error_info (P.set_field field info) response
  ]

  -- The `catch` clauses of `handle`.
  unfoldable pub recover : Text → Result P.Response → Result P.Response
  recover id (thrown (protocol_error status what field)) =
      returned (with_field field (make_failure id status what))
  recover id (thrown (calculator_exception code what)) =
      returned (make_failure id (map_internal_error code) what)
  recover id (thrown (std_exception what)) =
      returned (make_failure id ProtocolStatus.internal_error what)
  recover id (thrown foreign) =
      returned (make_failure id ProtocolStatus.unknown_error (codes "unknown server error"))
  recover id r = r

  -- The response to a cached record. `*cached->result()` has no meaning where the record has none.
  unfoldable pub cached_response : Text → OperationRecord → Result P.Response
  cached_response id cached =
      chain
        (if eqb_ℤ cached.status (to_int ErrorCode.error_none)
          then (elim cached.result [ none ↦ undefined | some v ↦ returned (P.success id v) ])
          else returned (
              make_failure id (map_internal_error cached.status)
                (codes "cached calculation error")))
        (λ response. returned (P.set_result_source ResultSource.cache response))

module _ (P : ProtocolLib) (M : MathLib) (st : OperationStorage) where
  -- `storage_->save(make_operation_record(data, status, std::string(operation)))`
  unfoldable pub save_record : CalculatorData → ℤ → Text → Exec st.State (Unit {0})
  save_record d status operation = do
    stored ← lift (make_operation_record d status operation)
    st.save stored

  -- The part of the inner `try` behind the calculation.
  unfoldable pub save_success : Text → CalculatorData → Text → Exec st.State P.Response
  save_success id d operation = do
    save_record d (to_int ErrorCode.error_none) operation
    pure (P.set_result_source ResultSource.calculated (P.success id d.result))

  -- A failed calculation is stored too, if it has its operands.
  unfoldable pub store_failure : CalculatorData → ℤ → Text → Exec st.State (Unit {0})
  store_failure d code operation s =
      if is_storable_operation d
      then (let (r, s') = save_record d code operation s in (drop_std r, s'))
      else (returned tt, s)

  -- `catch (const CalculatorException& exception)` of the inner `try`, which ends in `throw;`.
  unfoldable pub rescue :
      CalculatorData → Text → Result P.Response × st.State → Result P.Response × st.State
  rescue d operation (thrown (calculator_exception code message), s) =
      (store_failure (record d { error_code = of_int code }) code operation
          >> raise (calculator_exception code message))
        s
  rescue d operation outcome = outcome

  unfoldable pub calculate : Text → CalculatorData → Text → Exec st.State P.Response
  calculate id d operation s =
      let (calculated, d') = calculate_result M d in
      rescue d' operation (
        (lift calculated
            >> save_success id (record d' { error_code = ErrorCode.error_none }) operation)
          s)

  -- The outer `try`, once the request is parsed.
  unfoldable pub answer_request : P.Request → Exec st.State P.Response
  answer_request request = do
    d ← lift (to_calculator_data (P.operation request) (P.operands request))
    operation ← lift (operation_to_storage_name (P.operation request))
    cached ← st.find d.first_number (second_number_for_storage d) operation
    elim cached [
      | some found ↦ lift (cached_response P (P.request_id request) found)
      | none ↦ lift (check_arguments d) >> calculate (P.request_id request) d operation
    ]

  -- `request_id` is empty until the request is parsed.
  unfoldable pub respond : Text → Exec st.State P.Response
  respond request_json s = elim (P.parse_request request_json) [
    | returned request ↦
        let (r, s') = answer_request request s in (recover P (P.request_id request) r, s')
    | thrown e ↦ (recover P [] (thrown e), s)
    | undefined ↦ (undefined, s)
  ]

  unfoldable pub handle : ℤ → ℤ → Text → Exec st.State Text
  handle started_at now request_json = do
    response ← respond request_json
    pure (P.serialize_response (P.set_timing_info (make_timing started_at now) response))
