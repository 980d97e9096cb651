-- ===== src/Server/RequestHandler/Deserved.antt =====
-- The answer that a text deserves, as a function of the text, the parser and the arithmetic library, with
-- its own tables of errors and its own test on the operands.
use console_calculator.Prelude.{
  ◌≡◌, ◌≢◌, refl, inl, inr, Bool, true, ◌&&◌, Option, none, some, List, [], ◌∷◌, arith, Bool-cases,
  if◌then◌else◌, leb,
}
use console_calculator.Prelude.Int.{ℤ, pos_part, neg_part, InInt}
use console_calculator.Text.{Text}
use console_calculator.Protocol.{ProtocolOperation}
use console_calculator.Support.{Result, returned, thrown, undefined, Result-cases}
use console_calculator.Core.Abacus.{MathLib}
use console_calculator.Storage.OperationKey.Kinds.{Kind}
use console_calculator.Server.OperationStorage.{OperationStorage, IsReliable}
use console_calculator.Server.ProtocolLib.{ProtocolLib, IsLawful, Answer}
use console_calculator.Server.RequestHandler.Handle.{respond}
use console_calculator.Server.RequestHandler.Meaning.{
  operation_of, second_of, evaluate, IsArithmetic,
}
use console_calculator.Server.RequestHandler.Given.{Fits}
use console_calculator.Server.RequestHandler.Answers.{answer_of, Carries}
use console_calculator.Server.RequestHandler.Right.{IsRight}
use console_calculator.Server.RequestHandler.Sound.{IsSound}
use console_calculator.Server.RequestHandler.Transparency.{respond_transparent}
use console_calculator.Server.RequestHandler.Total.{respond-Settles, Returns}

abbrev pub kind_of : ProtocolOperation → Option Kind
kind_of ProtocolOperation.addition = some Kind.sum
kind_of ProtocolOperation.subtraction = some Kind.difference
kind_of ProtocolOperation.multiplication = some Kind.product
kind_of ProtocolOperation.division = some Kind.quotient
kind_of ProtocolOperation.exponentiation = some Kind.power
kind_of ProtocolOperation.factorial = some Kind.factorial
kind_of _ = none

pub kind_of-operation_of :
    (o : ProtocolOperation) (k : Kind) → kind_of o ≡ some k → o ≡ operation_of k
kind_of-operation_of o k e = ground arith

-- A number of 32 bits with a sign.
abbrev is_int : ℤ → Bool
is_int a = leb (pos_part a) 2147483647 && leb (neg_part a) 2147483648

is_int-InInt : (a : ℤ) → is_int a ≡ true → InInt a
is_int-InInt a h = ground arith

abbrev pub both_fit : ℤ → Option ℤ → Bool
both_fit a none = is_int a
both_fit a (some b) = is_int a && is_int b

pub both_fit-Fits : (a : ℤ) (x : Option ℤ) → both_fit a x ≡ true → Fits a x
both_fit-Fits a none h = is_int-InInt a h
both_fit-Fits a (some b) h = (is_int-InInt a (ground arith), is_int-InInt b (ground arith))

module _ (P : ProtocolLib) (M : MathLib) where
  abbrev pub deserved_by : Text → Option Kind → List ℤ → Option Answer
  deserved_by id (some k) (a ∷ rest) =
      if both_fit a (second_of rest)
      then some (answer_of id (evaluate M k a (second_of rest)))
      else none
  deserved_by id _ _ = none

  -- A request of a known operation, whose first operand is there and whose operands fit `int`, deserves the
  -- value or the error of its calculation; of other texts nothing is said.
  unfoldable pub deserved : Text → Option Answer
  deserved json = elim (P.parse_request json) [
    | returned request ↦
        deserved_by (P.request_id request) (kind_of (P.operation request)) (P.operands request)
    | _ ↦ none
  ]

module _ {P : ProtocolLib} {M : MathLib} {st : OperationStorage} (lawful : IsLawful P)
    (reliable : IsReliable (IsRight M) st) (laws : IsArithmetic M) where
  -- The result is a response, and the answer that it carries is the one deserved, if there is one.
  abbrev pub Matches : Option Answer → Result P.Response → Type 0
  Matches none (returned response) = Unit {0}
  Matches (some answer) (returned response) = lawful.answer response ≡ answer
  Matches _ _ = ⊥

  pub Carries-Matches :
      (r : Result P.Response) (answer : Answer) → Carries lawful r answer → Matches (some answer) r
  Carries-Matches (returned response) answer h = h
  Carries-Matches (thrown e) answer h = h
  Carries-Matches undefined answer h = h

  pub Returns-Matches : (r : Result P.Response) → Returns lawful reliable laws r → Matches none r
  Returns-Matches (returned response) h = h
  Returns-Matches (thrown e) h = h
  Returns-Matches undefined h = h

  request-Matches :
      (json : Text) (request : P.Request) (kind : Option Kind) (operands : List ℤ) (s : st.State)
      → P.parse_request json ≡ returned request
      → kind_of (P.operation request) ≡ kind
      → P.operands request ≡ operands
      → IsSound M reliable s
      → Returns lawful reliable laws (respond P M st json s).0
      → Matches (deserved_by P M (P.request_id request) kind operands) (respond P M st json s).0
  request-Matches json request (some k) (a ∷ rest) s parsed is_k are_operands sound returns =
      elim (Bool-cases (both_fit a (second_of rest))) [
        | inl fits ↦ rw fits (
            Carries-Matches _ _
              (respond_transparent lawful reliable laws json request k a rest s parsed
                (kind_of-operation_of (P.operation request) k is_k) are_operands
                (both_fit-Fits a (second_of rest) fits) sound).0)
        | inr wide ↦ rw wide (Returns-Matches _ returns)
      ]
  request-Matches json request (some k) [] s parsed is_k are_operands sound returns =
      Returns-Matches _ returns
  request-Matches json request none operands s parsed is_k are_operands sound returns =
      Returns-Matches _ returns

  -- Given a protocol library that is lawful, a storage that works and a library whose sums and products
  -- do not depend on the order of the operands and whose values fit `int`, and a parser without undefined
  -- behaviour on the text: on a sound storage the handler gives a response, with the answer that the text
  -- deserves where it deserves one, and leaves the storage sound.
  pub respond-Matches :
      (json : Text) (s : st.State)
      → P.parse_request json ≢ undefined
      → IsSound M reliable s
      → Matches (deserved P M json) (respond P M st json s).0
        × IsSound M reliable (respond P M st json s).1
  unfolding deserved
  respond-Matches json s defined sound =
      let (returns, after) = respond-Settles lawful reliable laws json s defined sound in
      let matched : Matches (deserved P M json) (respond P M st json s).0 =
        elim (Result-cases (P.parse_request json)) [
          | inl (request, parsed) ↦
              rw (deserved, parsed)
                (request-Matches json request (kind_of (P.operation request)) (P.operands request) s
                  parsed refl refl sound returns)
          | inr (inl (e, failed)) ↦ rw (deserved, failed) (Returns-Matches _ returns)
          | inr (inr never) ↦ absurd (defined never)
        ] in
      (matched, after)
