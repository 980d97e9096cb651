-- ===== src/Server/RequestHandler/Phases.antt =====
-- `RequestHandler::handle` in the two phases between which other threads can act: up to the answer of
-- `storage_->find`, and from there to the end. A call of the storage is atomic, and a request that
-- misses makes all its saves in its second phase, which is one step here.
pub mod Opened
pub mod Promise
pub mod Interleaved
pub mod Matched
use console_calculator.Prelude.{
  ◌≡◌, refl, ◌⊎◌, inl, inr, Option, none, some, List, [], ◌∷◌, ◌++◌, Option-cases,
}
use console_calculator.Text.{Text}
use console_calculator.Support.{Result, returned, thrown, undefined, Result-cases}
use console_calculator.Support.Exec.{Exec, pure, lift, chain, ◌>>=◌, ◌>>◌}
use console_calculator.Core.{CalculatorData}
use console_calculator.Core.Checker.{check_arguments}
use console_calculator.Core.Abacus.{MathLib}
use console_calculator.Server.OperationStorage.{OperationStorage}
use console_calculator.Server.ProtocolLib.{ProtocolLib}
use console_calculator.Server.RequestHandler.{
  to_calculator_data, operation_to_storage_name, second_number_for_storage,
}
use console_calculator.Server.RequestHandler.Handle.{
  recover, cached_response, calculate, answer_request, respond,
}

-- A request behind its first phase: its response is there, or it has to be calculated.
pub data Opening (P : ProtocolLib) : Type 0 where
  finished : Result P.Response → Opening P
  missed : P.Request → CalculatorData → Text → Opening P

module _ (P : ProtocolLib) (M : MathLib) (st : OperationStorage) where
  -- The outer `try` up to the cached record, if there is one.
  unfoldable pub look_up : P.Request → Exec st.State (P.Response ⊎ (CalculatorData × Text))
  look_up request = do
    d ← lift (to_calculator_data (P.operation request) (P.operands request))
    operation ← lift (operation_to_storage_name (P.operation request))
    cached ← st.find d.first_number (second_number_for_storage d) operation
    elim cached [
      | some found ↦
          lift (chain (cached_response P (P.request_id request) found) (λ r. returned (inl r)))
      | none ↦ pure (inr (d, operation))
    ]

  abbrev pub opening_of : P.Request → Result (P.Response ⊎ (CalculatorData × Text)) → Opening P
  opening_of request (returned (inl r)) = finished (recover P (P.request_id request) (returned r))
  opening_of request (returned (inr (d, operation))) = missed request d operation
  opening_of request (thrown e) = finished (recover P (P.request_id request) (thrown e))
  opening_of request undefined = finished undefined

  unfoldable pub open_request : Text → st.State → Opening P × st.State
  open_request request_json s = elim (P.parse_request request_json) [
    | returned request ↦ let (r, s') = look_up request s in (opening_of request r, s')
    | thrown e ↦ (finished (recover P [] (thrown e)), s)
    | undefined ↦ (finished undefined, s)
  ]

  -- From the missed look-up to the response.
  unfoldable pub finish_request : P.Request → CalculatorData → Text → Exec st.State P.Response
  finish_request request d operation s =
      let (r, s') =
        (lift (check_arguments d) >> calculate P M st (P.request_id request) d operation) s in
      (recover P (P.request_id request) r, s')

  abbrev pub finish_opening : Opening P × st.State → Result P.Response × st.State
  finish_opening (finished r, s) = (r, s)
  finish_opening (missed request d operation, s) = finish_request request d operation s

  look_up-answer :
      (request : P.Request) (s : st.State)
      → let (r, s') = answer_request P M st request s in
        finish_opening (let (o, s') = look_up request s in (opening_of request o, s'))
        ≡ (recover P (P.request_id request) r, s')
  unfolding look_up answer_request finish_request recover
  look_up-answer request s =
      elim (Result-cases (to_calculator_data (P.operation request) (P.operands request))) [
        | inr (inl (x, e)) ↦ rw e
        | inr (inr e) ↦ rw e
        | inl (d, e) ↦ rw e (elim (Result-cases (operation_to_storage_name (P.operation request))) [
          | inr (inl (x, e')) ↦ rw e'
          | inr (inr e') ↦ rw e'
          | inl (operation, e') ↦
              rw e'
                (elim (Result-cases
                  (st.find d.first_number (second_number_for_storage d) operation s).0) [
                    | inr (inl (x, f)) ↦ rw f
                    | inr (inr f) ↦ rw f
                    | inl (none, f) ↦ rw f
                    | inl (some found, f) ↦
                        rw f (elim (Result-cases (cached_response P (P.request_id request) found)) [
                          | inl (r, g) ↦ rw g
                          | inr (inl (x, g)) ↦ rw g
                          | inr (inr g) ↦ rw g
                        ])
                  ])
        ])
      ]

  -- The two phases, one straight after the other, are the handler.
  pub finish_opening-open_request :
      (json : Text) (s : st.State) → finish_opening (open_request json s) ≡ respond P M st json s
  unfolding open_request respond
  finish_opening-open_request json s = elim (Result-cases (P.parse_request json)) [
    | inl (request, e) ↦ rw (e, open_request, respond) (look_up-answer request s)
    | inr (inl (x, e)) ↦ rw (e, open_request, respond)
    | inr (inr e) ↦ rw (e, open_request, respond)
  ]
