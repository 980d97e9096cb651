-- ===== src/Server/RequestHandler/Honest/Calls.antt =====
-- Whole calls of the handler over a storage whose saves may fail at any time.
use console_calculator.Prelude.{
  ◌≡◌, ◌≢◌, refl, ap, subst, ◌∙◌, ◌⊎◌, inl, inr, Option, none, List, [], ◌∷◌, Option-cases,
}
use console_calculator.Prelude.Int.{ℤ, pos}
use console_calculator.Text.{Text}
use console_calculator.Support.{
  Result, returned, thrown, undefined, calculator_exception, Result-cases,
}
use console_calculator.Support.Exec.{lift, ◌>>◌}
use console_calculator.Core.Checker.{check_arguments}
use console_calculator.Core.Abacus.{MathLib}
use console_calculator.Storage.{OperationRecord}
use console_calculator.Storage.OperationKey.Kinds.{Kind, word, key_of, missing_second}
use console_calculator.Server.OperationStorage.{OperationStorage, IsCache}
use console_calculator.Server.ProtocolLib.{ProtocolLib, IsLawful, Answer}
use console_calculator.Server.RequestHandler.Found.{behind_key, answer_request-given}
use console_calculator.Server.RequestHandler.Handle.{recover, cached_response, calculate, respond}
use console_calculator.Server.RequestHandler.Meaning.{
  operation_of, second_of, operand_of, or_zero, admit, value_of, call, evaluate, IsArithmetic,
}
use console_calculator.Server.RequestHandler.Given.{
  given, Fits, check_arguments-given, calculate_result-given,
}
use console_calculator.Server.RequestHandler.Outcome.{stored, cache_key-stored}
use console_calculator.Server.RequestHandler.Answers.{
  Carries, answer_of, recover-Carries, recover_cached-Carries,
}
use console_calculator.Server.RequestHandler.Right.{IsOutcome, stored-IsRight, outcome-Holds}
use console_calculator.Server.RequestHandler.Transparency.{key_of-cases, admit-ne-undefined}
use console_calculator.Server.RequestHandler.Honest.{
  HoldsHonest, Tells, Withholds, IsTrue, finish-IsTrue,
}

module _ {P : ProtocolLib} {M : MathLib} {st : OperationStorage} (lawful : IsLawful P)
    (cache : IsCache st) (laws : IsArithmetic M) where
  calculate-IsTrue :
      (id : Text) (k : Kind) (a : ℤ) (x : Option ℤ) (s : st.State) {key : Text}
      → HoldsHonest M cache s
      → Fits a x
      → key_of k a (operand_of k x) ≡ returned key
      → admit k a x ≡ returned tt
      → let (r, s') = calculate P M st id (given k a x) (word k) s in
        IsTrue M lawful cache (answer_of id (evaluate M k a x)) (recover P id r, s')
  unfolding calculate
  calculate-IsTrue id k a x s {key} holds fits e admitted =
      let o = call M k a (or_zero x) in
      let outcome = (stored-IsRight M k a x key laws fits e admitted).1 in
      let right : IsOutcome M key (stored k a x key (value_of o)) =
        subst (λ t. IsOutcome M t (stored k a x key (value_of o))) (cache_key-stored k a x key o)
          outcome in
      rw (calculate_result-given M k a x, admitted)
        (finish-IsTrue M lawful cache k a x id s o e holds right)

  pub missed-IsTrue :
      (id : Text) (k : Kind) (a : ℤ) (x : Option ℤ) (s : st.State) {key : Text}
      → HoldsHonest M cache s
      → Fits a x
      → key_of k a (operand_of k x) ≡ returned key
      → let (r, s') =
          (lift (check_arguments (given k a x)) >> calculate P M st id (given k a x) (word k)) s in
        IsTrue M lawful cache (answer_of id (evaluate M k a x)) (recover P id r, s')
  missed-IsTrue id k a x s holds fits e =
      rw (check_arguments-given k a x e) (elim (Result-cases (admit k a x)) [
        | inl (u, admitted) ↦
            let true = calculate-IsTrue id k a x s holds fits e admitted in
            rw admitted (rw admitted at true)
        | inr (inl (e', refused)) ↦ rw refused (inl (recover-Carries lawful id e'), holds)
        | inr (inr never) ↦ absurd (admit-ne-undefined k a x never)
      ])

  Carries-Withholds :
      (r : Result P.Response) (answer : Answer)
      → answer.value ≡ none
      → Carries lawful r answer
      → Withholds lawful r
  Carries-Withholds (returned response) answer h carries = ap (λ (z : Answer). z.value) carries ∙ h
  Carries-Withholds (thrown e) answer h carries = carries
  Carries-Withholds undefined answer h carries = carries

  cached-Tells :
      (id : Text) (k : Kind) (a : ℤ) (x : Option ℤ) (key : Text) (r : OperationRecord)
      → key_of k a (operand_of k x) ≡ returned key
      → (r.status ≢ pos 0) ⊎ IsOutcome M key r
      → Tells lawful (answer_of id (evaluate M k a x)) (recover P id (cached_response P id r))
  cached-Tells id k a x key r e (inr right) = inl (
      recover_cached-Carries lawful id r (evaluate M k a x)
        (outcome-Holds M k a x key r laws e right))
  cached-Tells id k a x key r e (inl fails) =
      let failure : Result ℤ = thrown (calculator_exception r.status []) in
      inr (
        Carries-Withholds (recover P id (cached_response P id r)) (answer_of id failure) refl
          (recover_cached-Carries lawful id r failure (refl, fails)))

  behind_key-IsTrue :
      (request : P.Request) (k : Kind) (a : ℤ) (x : Option ℤ) (s : st.State)
      → HoldsHonest M cache s
      → Fits a x
      → let (r, s') =
          behind_key P M st cache.view cache.find_lem request k a x s
            (key_of k a (operand_of k x)) in
        IsTrue M lawful cache
          (answer_of (P.request_id request) (evaluate M k a x))
          (recover P (P.request_id request) r, s')
  unfolding behind_key
  behind_key-IsTrue request k a x s holds fits =
      let id = P.request_id request in
      elim (key_of-cases M k a x) [
        | inr (e, v) ↦ rw (e, v) (inl (recover-Carries lawful id missing_second), holds)
        | inl (key, e) ↦ rw e (elim (Option-cases (cache.view s key)) [
          | inr (r, found) ↦
              rw (found, behind_key) (cached-Tells id k a x key r e (holds key r found), holds)
          | inl missed ↦ rw (missed, behind_key) (missed-IsTrue id k a x s holds fits e)
        ])
      ]

  -- A request of a known operation, whose first operand is there and whose operands fit `int`.
  pub respond-IsTrue :
      (json : Text) (request : P.Request) (k : Kind) (a : ℤ) (rest : List ℤ) (s : st.State)
      → P.parse_request json ≡ returned request
      → P.operation request ≡ operation_of k
      → P.operands request ≡ a ∷ rest
      → Fits a (second_of rest)
      → HoldsHonest M cache s
      → IsTrue M lawful cache
          (answer_of (P.request_id request) (evaluate M k a (second_of rest)))
          (respond P M st json s)
  unfolding respond
  respond-IsTrue json request k a rest s parsed is_k are_operands fits holds =
      rw
        (
          parsed,
          respond,
          answer_request-given P M st cache.view cache.find_lem request k a rest s is_k are_operands
              fits,
        )
        (behind_key-IsTrue request k a (second_of rest) s holds fits)
