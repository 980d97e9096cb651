-- ===== src/Server/RequestHandler/Total.antt =====
-- The handler on any text at all.
use console_calculator.Prelude.{
  ◌≡◌, ◌≢◌, refl, ◌⊎◌, inl, inr, true, none, List, [], ◌∷◌, ◌++◌, arith, Option-cases, Bool-cases,
}
use console_calculator.Prelude.Int.{ℤ, pos, InInt}
use console_calculator.Text.{to_string, Text, codes}
use console_calculator.Protocol.{ProtocolOperation}
use console_calculator.Support.{Result-cases, Exception, Result, returned, thrown, undefined}
use console_calculator.Core.{CalculatorData}
use console_calculator.Core.Checker.{check_arguments}
use console_calculator.Core.Abacus.{MathLib}
use console_calculator.Storage.OperationKey.Kinds.{
  Kind, word, word-Names, make-key_of, missing_second, factorial,
}
use console_calculator.Server.OperationStorage.{OperationStorage, IsReliable}
use console_calculator.Server.ProtocolLib.{ProtocolLib, IsLawful, Answer}
use console_calculator.Server.RequestHandler.{to_calculator_data}
use console_calculator.Server.RequestHandler.Handle.{recover, answer_request, respond}
use console_calculator.Server.RequestHandler.Meaning.{
  operation_of, second_of, failed, evaluate, IsArithmetic,
}
use console_calculator.Server.RequestHandler.Given.{Fits, operation_to_storage_name-word}
use console_calculator.Server.RequestHandler.Answers.{
  answer_of, Carries, recover-Carries, recover_cached-Carries,
}
use console_calculator.Server.RequestHandler.Right.{IsRight}
use console_calculator.Server.RequestHandler.Sound.{IsSound, found-Holds}
use console_calculator.Server.RequestHandler.Transparency.{respond_transparent}
use console_calculator.Server.RequestHandler.{
  first_out_of_range, second_out_of_range, unknown_operation, fits_int64_to_int,
  to_internal_operation, second_number_for_storage,
}
use console_calculator.Core.{initial_data}
use console_calculator.Server.RequestHandler.Meaning.{code_of}

pub operation-cases :
    (o : ProtocolOperation)
    → ((k : Kind) × (o ≡ operation_of k)) ⊎ ((e : Exception) × (to_internal_operation o ≡ thrown e))
unfolding to_internal_operation
operation-cases ProtocolOperation.addition = inl (Kind.sum, refl)
operation-cases ProtocolOperation.subtraction = inl (Kind.difference, refl)
operation-cases ProtocolOperation.multiplication = inl (Kind.product, refl)
operation-cases ProtocolOperation.division = inl (Kind.quotient, refl)
operation-cases ProtocolOperation.exponentiation = inl (Kind.power, refl)
operation-cases ProtocolOperation.factorial = inl (Kind.factorial, refl)
operation-cases _ = inr (unknown_operation, refl)

to_internal_operation-known :
    (k : Kind) → to_internal_operation (operation_of k) ≡ returned (code_of k)
unfolding to_internal_operation
to_internal_operation-known Kind.sum = refl
to_internal_operation-known _ = refl

pub fits_sound : (a : ℤ) → fits_int64_to_int a ≡ true → InInt a
unfolding fits_int64_to_int
fits_sound a h = ground arith

-- Operands either fit, or the request is refused.
pub operands-cases :
    (k : Kind) (a : ℤ) (rest : List ℤ)
    → Fits a (second_of rest)
      ⊎ ((e : Exception) × (to_calculator_data (operation_of k) (a ∷ rest) ≡ thrown e))
unfolding to_calculator_data
operands-cases k a [] = elim (Bool-cases (fits_int64_to_int a)) [
  | inl fits ↦ inl (fits_sound a fits)
  | inr wide ↦ inr (first_out_of_range, rw (to_internal_operation-known k, wide))
]
operands-cases k a (b ∷ rest) = elim (Bool-cases (fits_int64_to_int a)) [
  | inl fits ↦ elim (Bool-cases (fits_int64_to_int b)) [
    | inl fits' ↦ inl (fits_sound a fits, fits_sound b fits')
    | inr wide ↦ inr (second_out_of_range, rw (to_internal_operation-known k, fits, wide))
  ]
  | inr wide ↦ inr (first_out_of_range, rw (to_internal_operation-known k, wide))
]

-- The data of a request without operands.
abbrev pub bare : Kind → CalculatorData
bare k = record initial_data { operation = code_of k }

pub to_calculator_data-bare :
    (k : Kind) → to_calculator_data (operation_of k) [] ≡ returned (bare k)
unfolding to_calculator_data
to_calculator_data-bare k = rw (to_internal_operation-known k)

pub second_number-bare : (k : Kind) → second_number_for_storage (bare k) ≡ none
unfolding second_number_for_storage
second_number-bare Kind.sum = refl
second_number-bare _ = refl

module _ {P : ProtocolLib} {M : MathLib} {st : OperationStorage} (lawful : IsLawful P)
    (reliable : IsReliable (IsRight M) st) (laws : IsArithmetic M) where
  abbrev pub Returns : Result P.Response → Type 0
  Returns (returned _) = Unit
  Returns _ = ⊥

  -- The call answers, and leaves a sound storage.
  abbrev pub Settles : Result P.Response × st.State → Type 0
  Settles out = Returns out.0 × IsSound M reliable out.1

  pub Carries-Returns :
      (r : Result P.Response) (answer : Answer) → Carries lawful r answer → Returns r
  Carries-Returns (returned response) answer h = tt
  Carries-Returns (thrown e) answer h = h
  Carries-Returns undefined answer h = h

  pub recover-Returns : (id : Text) (e : Exception) → Returns (recover P id (thrown e))
  recover-Returns id e =
      Carries-Returns (recover P id (thrown e)) (answer_of id (thrown e))
        (recover-Carries lawful id e)

  -- A request that has no operand.
  bare-Settles :
      (json : Text) (request : P.Request) (k : Kind) (s : st.State)
      → P.parse_request json ≡ returned request
      → P.operation request ≡ operation_of k
      → P.operands request ≡ []
      → IsSound M reliable s
      → Settles (respond P M st json s)
  unfolding respond answer_request check_arguments
  bare-Settles json request factorial s parsed is_k no_operands sound =
      let id = P.request_id request in
      let key = codes "fact(" ++ (to_string (pos 0) ++ codes ")") in
      rw
        (
          parsed,
          respond,
          is_k,
          no_operands,
          to_calculator_data-bare factorial,
          operation_to_storage_name-word factorial,
          second_number-bare factorial,
          reliable.find_lem (pos 0) none (word factorial) s,
          make-key_of (word factorial) factorial (pos 0) none (word-Names factorial),
        )
        (elim (Option-cases (reliable.view s key)) [
          | inl missed ↦ rw missed (recover-Returns id _, sound)
          | inr (r, found) ↦ rw found (
            Carries-Returns _ _ (
                recover_cached-Carries lawful id r (evaluate M factorial (pos 0) none)
                  (found-Holds M reliable s factorial (pos 0) none laws sound refl found)),
            sound,
          )
        ])
  bare-Settles json request k s parsed is_k no_operands sound =
      rw
        (
          parsed,
          respond,
          is_k,
          no_operands,
          to_calculator_data-bare k,
          operation_to_storage_name-word k,
          second_number-bare k,
          reliable.find_lem (pos 0) none (word k) s,
          make-key_of (word k) k (pos 0) none (word-Names k),
        )
        (recover-Returns (P.request_id request) missing_second, sound)

  -- A request whose data are refused.
  refused-Settles :
      (json : Text) (request : P.Request) (s : st.State) (e : Exception)
      → P.parse_request json ≡ returned request
      → to_calculator_data (P.operation request) (P.operands request) ≡ thrown e
      → IsSound M reliable s
      → Settles (respond P M st json s)
  unfolding respond answer_request
  refused-Settles json request s e parsed refused sound =
      rw (parsed, respond, refused) (recover-Returns (P.request_id request) e, sound)

  known-Settles :
      (json : Text) (request : P.Request) (k : Kind) (operands : List ℤ) (s : st.State)
      → P.parse_request json ≡ returned request
      → P.operation request ≡ operation_of k
      → P.operands request ≡ operands
      → IsSound M reliable s
      → Settles (respond P M st json s)
  known-Settles json request k [] s parsed is_k are_operands sound =
      bare-Settles json request k s parsed is_k are_operands sound
  known-Settles json request k (a ∷ rest) s parsed is_k are_operands sound =
      elim (operands-cases k a rest) [
        | inl fits ↦
            let delivered =
              respond_transparent lawful reliable laws json request k a rest s parsed is_k
                are_operands fits sound in
            (Carries-Returns _ _ delivered.0, delivered.1)
        | inr (e, refused) ↦
            refused-Settles json request s e parsed (rw (is_k, are_operands) refused) sound
      ]

  parsed-Settles :
      (json : Text) (request : P.Request) (s : st.State)
      → P.parse_request json ≡ returned request
      → IsSound M reliable s
      → Settles (respond P M st json s)
  unfolding to_calculator_data
  parsed-Settles json request s parsed sound = elim (operation-cases (P.operation request)) [
    | inl (k, is_k) ↦ known-Settles json request k (P.operands request) s parsed is_k refl sound
    | inr (e, unknown) ↦ refused-Settles json request s e parsed (rw unknown) sound
  ]

  -- Given a protocol library that is lawful, a storage that works and a library whose sums and products
  -- do not depend on the order of the operands and whose values fit `int`, and for a parser without
  -- undefined behaviour on the text:
  -- whatever the text, the handler gives a response and throws nothing, and the storage stays sound.
  pub respond-Settles :
      (json : Text) (s : st.State)
      → P.parse_request json ≢ undefined
      → IsSound M reliable s
      → Settles (respond P M st json s)
  unfolding respond
  respond-Settles json s defined sound = elim (Result-cases (P.parse_request json)) [
    | inl (request, parsed) ↦ parsed-Settles json request s parsed sound
    | inr (inl (e, failed)) ↦ rw (failed, respond) (recover-Returns [] e, sound)
    | inr (inr never) ↦ absurd (defined never)
  ]
