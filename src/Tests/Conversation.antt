-- ===== src/Tests/Conversation.antt =====
-- A session asks for 5 * 4 while another asks for 4 * 5, and finishes between its look-up and its
-- end.
use console_calculator.Prelude.{◌≡◌, ◌≢◌, refl, some, List, [], ◌∷◌, ◌++◌, All, arith, none}
use console_calculator.Prelude.Int.{pos, ◌*ℤ◌}
use console_calculator.Text.{Text, codes, to_string, digits, ◌===◌, is_empty}
use console_calculator.Support.{of_int}
use console_calculator.Protocol.{ProtocolStatus, ResultSource}
use console_calculator.Core.Checker.{check_arguments}
use console_calculator.Core.Abacus.{calculate_result, run_operation, map_math_error}
use console_calculator.Storage.Table
use console_calculator.Storage.Table.{Table}
use console_calculator.Storage.OperationKey.{make, symbol_for, is_factorial, is_commutative}
use console_calculator.Server.InMemoryOperationStorage
use console_calculator.Server.InMemoryOperationStorage.{in_memory_storage}
use console_calculator.Server.RequestHandler.{
  fits_int64_to_int, to_internal_operation, operation_to_storage_name, to_calculator_data,
  second_number_for_storage, is_storable_operation, make_operation_record, map_internal_error,
}
use console_calculator.Server.RequestHandler.Handle.{
  make_failure, with_field, recover, cached_response, save_record, save_success, store_failure,
  rescue, calculate, answer_request, respond,
}
use console_calculator.Server.RequestHandler.Sound.{IsSound, empty-IsSound}
use console_calculator.Server.RequestHandler.Deserved.{Matches, deserved, respond-Matches}
use console_calculator.Server.RequestHandler.Meaning.{evaluate}
use console_calculator.Server.RequestHandler.Answers.{answer_of}
use console_calculator.Storage.OperationKey.Kinds.{Kind}
use console_calculator.Server.TcpJsonServer.{writing, closed, opened, split_line, drop_return}
use console_calculator.Server.TcpJsonServer.Framing.{joined, IsLine}
use console_calculator.Server.RequestHandler.Phases.{Opening, open_request, finish_request, look_up}
use console_calculator.Server.RequestHandler.Phases.Interleaved.{arrive, finish}
use console_calculator.Server.Clients.{
  Exchange, ask, answer, Overlaps, begins, other_arrives, other_finishes, receives, asks, answers,
}
use console_calculator.Server.Clients.Wire.{AreReplies}
use console_calculator.Server.Clients.Replies.{Overlaps-AreReplies}
use console_calculator.Tests.Instances.{
  Response, safe_math, safe_math-IsArithmetic, plain_protocol, plain_protocol-IsLawful, parse,
  parse-ne-undefined,
}
use console_calculator.Tests.Handler.{in_memory, stays_up, nothing_stored}

abbrev pub line : Text
line = b'*' ∷ 5 ∷ 4 ∷ []

abbrev other_line : Text
other_line = b'*' ∷ 4 ∷ 5 ∷ []

abbrev Talk : Type 0
Talk = Exchange plain_protocol safe_math in_memory_storage

abbrev silent : Talk
silent = record {
  session = opened;
  handling = none;
  others = record { storage = []; in_flight = []; results = [] };
}

abbrev asked : Talk
asked =
    ask plain_protocol safe_math in_memory_storage line
      (record silent { session = record opened { buffer = line ++ 10 ∷ [] } })

abbrev looked_up : Opening plain_protocol
looked_up = (open_request plain_protocol safe_math in_memory_storage line []).0

abbrev other_looked_up : Opening plain_protocol
other_looked_up = (open_request plain_protocol safe_math in_memory_storage other_line []).0

abbrev overtaken : Talk
overtaken = record asked {
  others =
      finish plain_protocol safe_math in_memory_storage [] other_line other_looked_up []
        (arrive plain_protocol safe_math in_memory_storage other_line asked.others);
}

-- The response to the line, without its timing.
abbrev pub product : ResultSource → Response
product source = record {
  answer = record { answers = codes "req"; status = ProtocolStatus.ok; value = some (pos 20) };
  source = some source;
  duration = 0;
  field = none;
}

abbrev answered : Talk
answered =
    answer plain_protocol safe_math in_memory_storage (pos 1) (pos 2) [] looked_up
      (product ResultSource.calculated) overtaken

pub writing-ne-closed : (text : Text) → writing text ≢ closed
writing-ne-closed text = cc

talk : Overlaps plain_protocol safe_math in_memory_storage 64 [] (line ++ 10 ∷ []) answered
unfolding split_line drop_return ask answer arrive finish open_request look_up finish_request
    respond answer_request calculate rescue store_failure save_success save_record cached_response
    recover with_field make_failure make_operation_record is_storable_operation
    second_number_for_storage to_calculator_data operation_to_storage_name to_internal_operation
    fits_int64_to_int map_internal_error of_int check_arguments calculate_result run_operation
    map_math_error make symbol_for is_factorial is_commutative to_string digits ◌===◌ is_empty
    Table.lookup Table.insert_or_assign InMemoryOperationStorage.find InMemoryOperationStorage.save
    parse ◌*ℤ◌
talk =
    answers (pos 1) (pos 2) line [] looked_up (product ResultSource.calculated)
      (other_finishes [] other_line other_looked_up []
        (other_arrives other_line
          (asks line [] (receives (line ++ 10 ∷ []) begins) refl refl refl (omega arith)))
        refl)
      refl refl refl

respond-Matches_example :
    Matches plain_protocol-IsLawful in_memory safe_math-IsArithmetic
      (deserved plain_protocol safe_math line)
      (respond plain_protocol safe_math in_memory_storage line []).0
    × IsSound safe_math in_memory (respond plain_protocol safe_math in_memory_storage line []).1
respond-Matches_example =
    respond-Matches plain_protocol-IsLawful in_memory safe_math-IsArithmetic line []
      (parse-ne-undefined line) (empty-IsSound safe_math in_memory [] stays_up nothing_stored)

-- The line deserves the product.
deserves_twenty :
    deserved plain_protocol safe_math line
    ≡ some (answer_of (codes "req") (evaluate safe_math Kind.product (pos 5) (some (pos 4))))
unfolding deserved parse fits_int64_to_int
deserves_twenty = refl

Overlaps-AreReplies_example :
    (lines : List Text) × (line ++ 10 ∷ [] ≡ joined lines ++ [])
    × All (IsLine 64) lines
    × AreReplies plain_protocol-IsLawful in_memory safe_math-IsArithmetic parse-ne-undefined 64
        lines
        (codes "req\n" ∷ [])
unfolding ask answer arrive finish
Overlaps-AreReplies_example =
    Overlaps-AreReplies plain_protocol-IsLawful in_memory safe_math-IsArithmetic parse-ne-undefined
      64 [] (line ++ 10 ∷ []) answered
      (empty-IsSound safe_math in_memory [] stays_up nothing_stored) talk
      (writing-ne-closed (codes "req\n"))
