-- ===== src/Server/RequestHandler/Phases/Matched.antt =====
-- What a promise keeps, in the words of the answer that a text deserves.
use console_calculator.Prelude.{
  ◌≡◌, ◌≢◌, refl, inl, inr, Option, none, some, List, [], ◌∷◌, Bool-cases,
}
use console_calculator.Prelude.Int.{ℤ}
use console_calculator.Text.{Text}
use console_calculator.Support.{Result, returned, undefined, Result-cases}
use console_calculator.Core.Abacus.{MathLib}
use console_calculator.Storage.OperationKey.Kinds.{Kind}
use console_calculator.Server.OperationStorage.{OperationStorage, IsReliable}
use console_calculator.Server.ProtocolLib.{ProtocolLib, IsLawful}
use console_calculator.Server.RequestHandler.Meaning.{second_of, IsArithmetic}
use console_calculator.Server.RequestHandler.Right.{IsRight}
use console_calculator.Server.RequestHandler.Deserved.{
  kind_of, kind_of-operation_of, both_fit, both_fit-Fits, deserved, deserved_by, Matches,
  Carries-Matches, Returns-Matches,
}
use console_calculator.Server.RequestHandler.Phases.Promise.{IsAnswered}

module _ {P : ProtocolLib} {M : MathLib} {st : OperationStorage} (lawful : IsLawful P)
    (reliable : IsReliable (IsRight M) st) (laws : IsArithmetic M) where
  request-Matches :
      (json : Text) (request : P.Request) (kind : Option Kind) (operands : List ℤ)
      (r : Result P.Response)
      → P.parse_request json ≡ returned request
      → kind_of (P.operation request) ≡ kind
      → P.operands request ≡ operands
      → P.parse_request json ≢ undefined
      → IsAnswered lawful reliable laws json r
      → Matches lawful reliable laws (deserved_by P M (P.request_id request) kind operands) r
  request-Matches json request (some k) (a ∷ rest) r parsed is_k are_operands defined answered =
      elim (Bool-cases (both_fit a (second_of rest))) [
        | inl fits ↦ rw fits (
            Carries-Matches lawful reliable laws r _ (
              answered.1 request k a rest (
                parsed,
                kind_of-operation_of (P.operation request) k is_k,
                are_operands,
                both_fit-Fits a (second_of rest) fits,
              )))
        | inr wide ↦ rw wide (Returns-Matches lawful reliable laws r (answered.0 defined))
      ]
  request-Matches json request (some k) [] r parsed is_k are_operands defined answered =
      Returns-Matches lawful reliable laws r (answered.0 defined)
  request-Matches json request none operands r parsed is_k are_operands defined answered =
      Returns-Matches lawful reliable laws r (answered.0 defined)

  pub answered-Matches :
      (json : Text) (r : Result P.Response)
      → P.parse_request json ≢ undefined
      → IsAnswered lawful reliable laws json r
      → Matches lawful reliable laws (deserved P M json) r
  unfolding deserved
  answered-Matches json r defined answered = elim (Result-cases (P.parse_request json)) [
    | inl (request, parsed) ↦
        rw (deserved, parsed)
          (request-Matches json request (kind_of (P.operation request)) (P.operands request) r
            parsed refl refl defined answered)
    | inr (inl (e, failed)) ↦
        rw (deserved, failed) (Returns-Matches lawful reliable laws r (answered.0 defined))
    | inr (inr never) ↦ absurd (defined never)
  ]
