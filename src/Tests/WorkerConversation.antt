-- ===== src/Tests/WorkerConversation.antt =====
-- The session of Tests/Conversation.antt over the storage worker, behind a life of the program that was
-- asked for the product: server/src/storage-worker.cpp.
use console_calculator.Prelude.{◌≡◌, refl, List, [], ◌∷◌, ◌++◌, All, arith, none}
use console_calculator.Prelude.Int.{pos, ◌*ℤ◌}
use console_calculator.Text.{Text, codes, to_string, digits, ◌===◌, is_empty}
use console_calculator.Support.{of_int}
use console_calculator.Protocol.{ResultSource}
use console_calculator.Core.Checker.{check_arguments}
use console_calculator.Core.Abacus.{calculate_result, run_operation, map_math_error}
use console_calculator.Storage.Table
use console_calculator.Storage.Table.{Table}
use console_calculator.Storage.OperationKey.{make, symbol_for, is_factorial, is_commutative}
use console_calculator.Text.Number.{stoi, read_signed, skip_spaces, read_magnitude, read_digits}
use console_calculator.Storage.CacheRepository
use console_calculator.Storage.Postgres.{
  is_connected, last_error, ensure_connected, make_result, execute, execute_params, get,
  expect_status, expect_command_ok, expect_tuples_ok, row_count, is_null, value,
}
use console_calculator.Storage.Postgres.Repository
use console_calculator.Storage.Postgres.Repository.{
  create_sql, select_sql, insert_sql, to_optional_string, params_of, init_schema,
  parse_optional_int, read_row, read_rows, load_history,
}
use console_calculator.Storage.StorageService
use console_calculator.Storage.StorageService.{StorageService, initialize}
use console_calculator.Storage.StorageService.Restart.{fresh}
use console_calculator.Server.StorageWorker.{worker_storage}
use console_calculator.Server.StorageWorker.Lives.{live, after_lives, worker_storage-IsReliable}
use console_calculator.Server.RequestHandler.History.{after}
use console_calculator.Tests.Database.{one_table, one_table-IsHistoryTable}
use console_calculator.Tests.Production.{
  world_between, first_life, empty_table, empty-HoldsAccepted, still_up,
}
use console_calculator.Server.RequestHandler.{
  fits_int64_to_int, to_internal_operation, operation_to_storage_name, to_calculator_data,
  second_number_for_storage, is_storable_operation, make_operation_record, map_internal_error,
}
use console_calculator.Server.RequestHandler.Handle.{
  make_failure, with_field, recover, cached_response, save_record, save_success, store_failure,
  rescue, calculate, answer_request, respond,
}
use console_calculator.Server.TcpJsonServer.{opened, split_line, drop_return}
use console_calculator.Server.TcpJsonServer.Framing.{joined, IsLine}
use console_calculator.Server.RequestHandler.Phases.{Opening, open_request, finish_request, look_up}
use console_calculator.Server.RequestHandler.Phases.Interleaved.{arrive, finish}
use console_calculator.Server.Clients.{
  Exchange, ask, answer, Overlaps, begins, receives, asks, answers,
}
use console_calculator.Server.Clients.Wire.{AreReplies}
use console_calculator.Server.Clients.Production.{AreReplies-after_lives}
use console_calculator.Tests.Instances.{
  safe_math, safe_math-IsArithmetic, plain_protocol, plain_protocol-IsLawful, parse,
  parse-ne-undefined,
}
use console_calculator.Tests.Conversation.{line, product, writing-ne-closed}

abbrev woken : StorageService one_table
woken = (initialize one_table (fresh one_table one_table-IsHistoryTable tt world_between)).1

abbrev received : Exchange plain_protocol safe_math (worker_storage one_table)
received = record {
  session = record opened { buffer = line ++ 10 ∷ [] };
  handling = none;
  others = record { storage = woken; in_flight = []; results = [] };
}

abbrev looked_up_behind : Opening plain_protocol
looked_up_behind = (open_request plain_protocol safe_math (worker_storage one_table) line woken).0

abbrev served : Exchange plain_protocol safe_math (worker_storage one_table)
served =
    answer plain_protocol safe_math (worker_storage one_table) (pos 1) (pos 2) [] looked_up_behind
      (product ResultSource.cache)
      (ask plain_protocol safe_math (worker_storage one_table) line received)

talk_to_worker :
    Overlaps plain_protocol safe_math (worker_storage one_table) 64 woken (line ++ 10 ∷ []) served
unfolding split_line drop_return ask answer arrive finish open_request look_up finish_request
    respond answer_request calculate rescue store_failure save_success save_record cached_response
    recover with_field make_failure make_operation_record is_storable_operation
    second_number_for_storage to_calculator_data operation_to_storage_name to_internal_operation
    fits_int64_to_int map_internal_error of_int check_arguments calculate_result run_operation
    map_math_error make symbol_for is_factorial is_commutative to_string digits ◌===◌ is_empty
    Table.lookup Table.insert_or_assign parse ◌*ℤ◌ after_lives live after StorageService.find
    StorageService.save initialize CacheRepository.put CacheRepository.warm_up
    CacheRepository.find_by_key CacheRepository.find is_connected last_error ensure_connected
    make_result execute execute_params get expect_status expect_command_ok expect_tuples_ok
    row_count is_null value create_sql select_sql insert_sql to_optional_string params_of
    init_schema parse_optional_int read_row read_rows load_history Repository.save
    one_table-IsHistoryTable stoi read_signed skip_spaces read_magnitude read_digits
talk_to_worker =
    answers (pos 1) (pos 2) line [] looked_up_behind (product ResultSource.cache)
      (asks line [] (receives (line ++ 10 ∷ []) begins) refl refl refl (omega arith)) refl refl refl

AreReplies-after_lives_example :
    (lines : List Text) × (line ++ 10 ∷ [] ≡ joined lines ++ [])
    × All (IsLine 64) lines
    × AreReplies plain_protocol-IsLawful
        (worker_storage-IsReliable one_table-IsHistoryTable safe_math)
        safe_math-IsArithmetic
        parse-ne-undefined
        64
        lines
        (codes "req\n" ∷ [])
unfolding ask answer arrive finish
AreReplies-after_lives_example =
    AreReplies-after_lives one_table-IsHistoryTable plain_protocol-IsLawful safe_math-IsArithmetic
      parse-ne-undefined 64 (first_life ∷ []) empty_table tt (line ++ 10 ∷ []) served
      empty-HoldsAccepted (refl, tt) still_up talk_to_worker (writing-ne-closed (codes "req\n"))
