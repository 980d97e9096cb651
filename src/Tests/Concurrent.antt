-- ===== src/Tests/Concurrent.antt =====
-- Two requests for the same product at once: both look up before either saves.
use console_calculator.Prelude.{◌≡◌, refl, some, [], ◌∷◌, arith}
use console_calculator.Prelude.Int.{pos}
use console_calculator.Text.{Text, codes}
use console_calculator.Support.{Result}
use console_calculator.Storage.OperationKey.Kinds.{Kind}
use console_calculator.Storage.Table.{Table}
use console_calculator.Server.InMemoryOperationStorage.{in_memory_storage}
use console_calculator.Server.RequestHandler.Meaning.{evaluate}
use console_calculator.Server.RequestHandler.Answers.{Carries, answer_of}
use console_calculator.Server.RequestHandler.Sound.{IsSound, empty-IsSound}
use console_calculator.Server.RequestHandler.Total.{Returns}
use console_calculator.Server.RequestHandler.Phases.{Opening, open_request, finish_opening}
use console_calculator.Server.RequestHandler.Phases.Interleaved.{
  Requests, arrive, finish, Reaches, begin, arrives, finishes, Reaches-Carries, Reaches-Returns,
}
use console_calculator.Tests.Instances.{
  Response, safe_math, safe_math-IsArithmetic, plain_protocol, plain_protocol-IsLawful, parse,
  parse-ne-undefined,
}
use console_calculator.Tests.Handler.{in_memory, stays_up, nothing_stored, product_request}

abbrev Served : Type 0
Served = Requests plain_protocol safe_math in_memory_storage

abbrev opens : Text → Table → Opening plain_protocol × Table
opens = open_request plain_protocol safe_math in_memory_storage

abbrev ends : Opening plain_protocol × Table → Result Response × Table
ends = finish_opening plain_protocol safe_math in_memory_storage

abbrev first_text : Text
first_text = b'*' ∷ 5 ∷ 4 ∷ []

abbrev second_text : Text
second_text = b'*' ∷ 4 ∷ 5 ∷ []

abbrev first_opening : Opening plain_protocol
first_opening = (opens first_text []).0

abbrev second_opening : Opening plain_protocol
second_opening = (opens second_text (opens first_text []).1).0

abbrev nobody : Served
nobody = record { storage = []; in_flight = []; results = [] }

abbrev both_wait : Served
both_wait =
    arrive plain_protocol safe_math in_memory_storage second_text
      (arrive plain_protocol safe_math in_memory_storage first_text nobody)

abbrev one_waits : Served
one_waits =
    finish plain_protocol safe_math in_memory_storage [] second_text second_opening
      ((first_text, first_opening) ∷ []) both_wait

abbrev both_done : Served
both_done =
    finish plain_protocol safe_math in_memory_storage [] first_text first_opening [] one_waits

abbrev second_result : Result Response
second_result = (ends (second_opening, both_wait.storage)).0

abbrev first_result : Result Response
first_result = (ends (first_opening, one_waits.storage)).0

both_done_reached : Reaches plain_protocol safe_math in_memory_storage [] both_done
unfolding arrive finish
both_done_reached =
    finishes [] first_text first_opening []
      (finishes [] second_text second_opening ((first_text, first_opening) ∷ [])
        (arrives second_text (arrives first_text begin)) refl)
      refl

both_results : both_done.results ≡ (first_text, first_result) ∷ (second_text, second_result) ∷ []
unfolding arrive finish
both_results = refl

Reaches-Carries_example :
    Carries plain_protocol-IsLawful first_result
      (answer_of (codes "req") (evaluate safe_math Kind.product (pos 5) (some (pos 4))))
    × IsSound safe_math in_memory both_done.storage
unfolding parse
Reaches-Carries_example =
    Reaches-Carries plain_protocol-IsLawful in_memory safe_math-IsArithmetic [] both_done []
      ((second_text, second_result) ∷ []) first_text first_result product_request Kind.product
      (pos 5) (pos 4 ∷ []) (empty-IsSound safe_math in_memory [] stays_up nothing_stored)
      both_done_reached both_results (refl, refl, refl, omega arith)

Reaches-Returns_example :
    Returns plain_protocol-IsLawful in_memory safe_math-IsArithmetic second_result
Reaches-Returns_example =
    Reaches-Returns plain_protocol-IsLawful in_memory safe_math-IsArithmetic [] both_done
      ((first_text, first_result) ∷ []) [] second_text second_result
      (empty-IsSound safe_math in_memory [] stays_up nothing_stored) both_done_reached both_results
      (parse-ne-undefined second_text)
