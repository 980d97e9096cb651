-- ===== src/Server/RequestHandler/History.antt =====
-- The handler after sequences of requests.
use console_calculator.Prelude.{◌≡◌, ◌≢◌, none, some, List, [], ◌∷◌, ◌++◌}
use console_calculator.Prelude.Int.{ℤ, pos}
use console_calculator.Text.{to_string, Text, codes}
use console_calculator.Protocol.{ProtocolOperation, ProtocolStatus}
use console_calculator.Support.{returned, undefined, of_int}
use console_calculator.Core.Checker.{check_arguments}
use console_calculator.Core.Abacus.{MathLib}
use console_calculator.Storage.{OperationRecord}
use console_calculator.Storage.OperationKey.Kinds.{Kind, word, word-Names, make-key_of, factorial}
use console_calculator.Server.OperationStorage.{OperationStorage, IsReliable}
use console_calculator.Server.ProtocolLib.{ProtocolLib, IsLawful}
use console_calculator.Server.RequestHandler.{map_internal_error}
use console_calculator.Server.RequestHandler.Handle.{answer_request, respond}
use console_calculator.Server.RequestHandler.Meaning.{
  operation_of, second_of, evaluate, IsArithmetic, Holds,
}
use console_calculator.Server.RequestHandler.Given.{Fits, operation_to_storage_name-word}
use console_calculator.Server.RequestHandler.Answers.{
  named, answer_of, Carries, recover-Carries, recover_cached-Carries,
}
use console_calculator.Server.RequestHandler.Right.{IsRight}
use console_calculator.Server.RequestHandler.Sound.{empty-IsSound, IsSound}
use console_calculator.Server.RequestHandler.Transparency.{respond_transparent}
use console_calculator.Server.RequestHandler.Total.{
  respond-Settles, to_calculator_data-bare, second_number-bare,
}

module _ (P : ProtocolLib) (M : MathLib) (st : OperationStorage) where
  -- The storage after a sequence of requests.
  unfoldable pub after : List Text → st.State → st.State
  after [] s = s
  after (json ∷ rest) s = after rest (respond P M st json s).1

module _ {P : ProtocolLib} {M : MathLib} {st : OperationStorage} (lawful : IsLawful P)
    (reliable : IsReliable (IsRight M) st) (laws : IsArithmetic M)
    (total : (json : Text) → P.parse_request json ≢ undefined) where
  pub after-IsSound :
      (history : List Text) (s : st.State)
      → IsSound M reliable s
      → IsSound M reliable (after P M st history s)
  unfolding after
  after-IsSound [] s sound = sound
  after-IsSound (json ∷ rest) s sound =
      after-IsSound rest (respond P M st json s).1
        (respond-Settles lawful reliable laws json s (total json) sound).1

  -- Given a protocol library that is lawful and whose parser has no undefined behaviour, a storage that
  -- works and a library whose sums and products do not depend on the order of the operands and whose values
  -- fit `int`:
  -- From a storage that is up and empty and after any requests at all, well formed or not, a request of a
  -- known operation, whose first operand is there and whose operands fit `int`, is answered with the value
  -- or the error of its calculation.
  pub respond-after :
      (history : List Text) (s : st.State) (json : Text) (request : P.Request) (k : Kind) (a : ℤ)
      (rest : List ℤ)
      → reliable.IsUp s
      → ((key : Text) → reliable.view s key ≡ none)
      → P.parse_request json ≡ returned request
      → P.operation request ≡ operation_of k
      → P.operands request ≡ a ∷ rest
      → Fits a (second_of rest)
      → Carries lawful
          (respond P M st json (after P M st history s)).0
          (answer_of (P.request_id request) (evaluate M k a (second_of rest)))
  respond-after history s json request k a rest up none_stored parsed is_k are_operands fits =
      (respond_transparent lawful reliable laws json request k a rest (after P M st history s)
        parsed is_k are_operands fits
        (after-IsSound history s (empty-IsSound M reliable s up none_stored))).0

-- The key of the factorial of 0.
abbrev pub zero_key : Text
zero_key = codes "fact(" ++ (to_string (pos 0) ++ codes ")")

module _ {P : ProtocolLib} (M : MathLib) {st : OperationStorage} (lawful : IsLawful P)
    (reliable : IsReliable (IsRight M) st) where
  bare_found :
      (json : Text) (request : P.Request) (s : st.State) (r : OperationRecord) (v : ℤ)
      → P.parse_request json ≡ returned request
      → P.operation request ≡ ProtocolOperation.factorial
      → P.operands request ≡ []
      → reliable.view s zero_key ≡ some r
      → Holds r (returned v)
      → Carries lawful (respond P M st json s).0 (answer_of (P.request_id request) (returned v))
  unfolding respond answer_request
  bare_found json request s r v parsed is_factorial no_operands found holds =
      rw
        (
          parsed,
          respond,
          is_factorial,
          no_operands,
          to_calculator_data-bare factorial,
          operation_to_storage_name-word factorial,
          second_number-bare factorial,
          reliable.find_lem (pos 0) none (word factorial) s,
          make-key_of (word factorial) factorial (pos 0) none (word-Names factorial),
          found,
        )
        (recover_cached-Carries lawful (P.request_id request) r (returned v) holds)

  bare_missed :
      (json : Text) (request : P.Request) (s : st.State)
      → P.parse_request json ≡ returned request
      → P.operation request ≡ ProtocolOperation.factorial
      → P.operands request ≡ []
      → reliable.view s zero_key ≡ none
      → Carries lawful (respond P M st json s).0 (record {
        answers = named (P.request_id request);
        status = ProtocolStatus.operands_count_mismatch;
        value = none;
      })
  unfolding respond answer_request check_arguments map_internal_error of_int
  bare_missed json request s parsed is_factorial no_operands missed =
      rw
        (
          parsed,
          respond,
          is_factorial,
          no_operands,
          to_calculator_data-bare factorial,
          operation_to_storage_name-word factorial,
          second_number-bare factorial,
          reliable.find_lem (pos 0) none (word factorial) s,
          make-key_of (word factorial) factorial (pos 0) none (word-Names factorial),
          missed,
        )
        (recover-Carries lawful (P.request_id request) _)

  -- Given a protocol library that is lawful and a storage that works:
  -- The storage is asked before the arguments are checked. So a factorial request without operands is
  -- answered with the factorial of 0 in a state `s` where that is stored, and refused with
  -- OPERANDS_COUNT_MISMATCH in a state `t` where it is not.
  pub respond_bare_factorial :
      (json : Text) (request : P.Request) (s t : st.State) (r : OperationRecord) (v : ℤ)
      → P.parse_request json ≡ returned request
      → P.operation request ≡ ProtocolOperation.factorial
      → P.operands request ≡ []
      → reliable.view s zero_key ≡ some r
      → Holds r (returned v)
      → reliable.view t zero_key ≡ none
      → Carries lawful (respond P M st json s).0 (answer_of (P.request_id request) (returned v))
        × Carries lawful (respond P M st json t).0 (record {
          answers = named (P.request_id request);
          status = ProtocolStatus.operands_count_mismatch;
          value = none;
        })
  respond_bare_factorial json request s t r v parsed is_factorial no_operands found holds missed = (
    bare_found json request s r v parsed is_factorial no_operands found holds,
    bare_missed json request t parsed is_factorial no_operands missed,
  )
