-- ===== src/Server/RequestHandler/Phases/Promise.antt =====
-- What the first phase of a request leaves can be done from any sound state of the storage.
use console_calculator.Prelude.{◌≡◌, ◌≢◌, refl, sym, ap, subst, inl, inr, List, ◌∷◌}
use console_calculator.Prelude.Int.{ℤ}
use console_calculator.Text.{Text}
use console_calculator.Support.{Result, returned, undefined}
use console_calculator.Core.{CalculatorData}
use console_calculator.Core.Checker.{check_arguments}
use console_calculator.Core.Abacus.{MathLib}
use console_calculator.Storage.OperationKey.Kinds.{Kind}
use console_calculator.Server.OperationStorage.{OperationStorage, IsReliable}
use console_calculator.Server.ProtocolLib.{ProtocolLib, IsLawful}
use console_calculator.Server.RequestHandler.Handle.{respond}
use console_calculator.Server.RequestHandler.Meaning.{
  operation_of, second_of, evaluate, IsArithmetic,
}
use console_calculator.Server.RequestHandler.Given.{Fits}
use console_calculator.Server.RequestHandler.Answers.{answer_of, Carries}
use console_calculator.Server.RequestHandler.Right.{IsRight}
use console_calculator.Server.RequestHandler.Sound.{IsSound}
use console_calculator.Server.RequestHandler.Transparency.{
  Delivers, missed-Delivers, respond_transparent,
}
use console_calculator.Server.RequestHandler.Total.{
  Returns, Settles, recover-Returns, Carries-Returns, respond-Settles,
}
use console_calculator.Server.RequestHandler.Phases.{
  Opening, finished, missed, open_request, finish_request, finish_opening,
  finish_opening-open_request,
}
use console_calculator.Server.RequestHandler.Phases.Opened.{
  Asks, HasKey, HasKey-IsAsked, HasKey-given, IsOver, over_state, open_request-IsOpened,
}

module _ {P : ProtocolLib} {M : MathLib} {st : OperationStorage} (lawful : IsLawful P)
    (reliable : IsReliable (IsRight M) st) (laws : IsArithmetic M) where
  missed-Carries :
      (request : P.Request) (k : Kind) (a : ℤ) (rest : List ℤ) (d : CalculatorData)
      (operation : Text) (s : st.State)
      → P.operation request ≡ operation_of k
      → P.operands request ≡ a ∷ rest
      → Fits a (second_of rest)
      → HasKey P request d operation
      → IsSound M reliable s
      → Delivers lawful reliable laws
          (answer_of (P.request_id request) (evaluate M k a (second_of rest)))
          (finish_request P M st request d operation s)
  unfolding finish_request
  missed-Carries request k a rest d operation s is_k are_operands fits has_key sound =
      let (same, name, (key, keyed)) =
        HasKey-given P request k a rest d operation is_k are_operands fits has_key in
      rw (same, name)
        (missed-Delivers lawful reliable laws (P.request_id request) k a (second_of rest) s sound
          fits keyed)

  abbrev pub IsAnswered : Text → Result P.Response → Type 0
  IsAnswered json r =
      (P.parse_request json ≢ undefined → Returns lawful reliable laws r)
      × ((request : P.Request) (k : Kind) (a : ℤ) (rest : List ℤ)
          → Asks P json request k a rest
          → Carries lawful r (answer_of (P.request_id request) (evaluate M k a (second_of rest))))

  -- Finished from any sound state, the request is answered, and leaves the storage sound.
  abbrev pub IsPromise : Text → Opening P → Type 0
  IsPromise json o =
      (s : st.State)
      → IsSound M reliable s
      → let (r, s') = finish_opening P M st (o, s) in IsAnswered json r × IsSound M reliable s'

  missed-Settles :
      (request : P.Request) (d : CalculatorData) (operation : Text) (s : st.State)
      → HasKey P request d operation
      → IsSound M reliable s
      → Settles lawful reliable laws (finish_request P M st request d operation s)
  unfolding finish_request check_arguments
  missed-Settles request d operation s has_key sound =
      elim (HasKey-IsAsked P request d operation has_key) [
        | inl (k, a, rest, is_k, are_operands, fits) ↦
            let delivered =
              missed-Carries request k a rest d operation s is_k are_operands fits has_key sound in
            (Carries-Returns lawful reliable laws _ _ delivered.0, delivered.1)
        | inr same ↦ rw same (recover-Returns lawful reliable laws (P.request_id request) _, sound)
      ]

  missed-IsPromise :
      (json : Text) (request : P.Request) (d : CalculatorData) (operation : Text)
      → P.parse_request json ≡ returned request
      → HasKey P request d operation
      → IsPromise json (missed request d operation)
  missed-IsPromise json request d operation parsed has_key s sound =
      let settled = missed-Settles request d operation s has_key sound in
      (
        (
          λ defined. settled.0,
          λ q k a rest (parsed', is_k, are_operands, fits).
              let same : q ≡ request = cc (parsed, parsed') in
              rw same
                (missed-Carries request k a rest d operation s (rw same at is_k)
                  (rw same at are_operands) fits has_key sound).0,
        ),
        settled.1,
      )

  over-IsPromise :
      (json : Text) (s : st.State) (out : Opening P × st.State)
      → finish_opening P M st out ≡ respond P M st json s
      → IsOver P M st reliable.view reliable.find_lem s out
      → IsSound M reliable s
      → IsPromise json out.0
  over-IsPromise json s (finished r, s') e over sound s'' sound'' = (
    (
      λ defined.
          subst (Returns lawful reliable laws) (sym (ap (λ out. out.0) e))
            (respond-Settles lawful reliable laws json s defined sound).0,
      λ q k a rest (parsed, is_k, are_operands, fits).
          subst
            (λ z. Carries lawful z (answer_of (P.request_id q) (evaluate M k a (second_of rest))))
            (sym (ap (λ out. out.0) e))
            (respond_transparent lawful reliable laws json q k a rest s parsed is_k are_operands
              fits sound).0,
    ),
    sound'',
  )
  over-IsPromise json s (missed request d operation, s') e over sound s'' sound'' = absurd over

  -- The first phase on a sound storage changes nothing, and what it leaves is a promise.
  pub open_request-IsPromise :
      (json : Text) (s : st.State)
      → IsSound M reliable s
      → let (o, s') = open_request P M st json s in IsPromise json o × (s' ≡ s)
  open_request-IsPromise json s sound =
      elim (open_request-IsOpened P M st reliable.view reliable.find_lem json s) [
        | inl over ↦ (
          over-IsPromise json s (open_request P M st json s)
              (finish_opening-open_request P M st json s) over sound,
          over_state P M st reliable.view reliable.find_lem s (open_request P M st json s) over,
        )
        | inr (request, d, operation, parsed, e, has_key) ↦
            rw e (missed-IsPromise json request d operation parsed has_key, refl)
      ]
