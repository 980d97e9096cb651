-- ===== src/Server/RequestHandler/Found.antt =====
-- A storage that can be read: what the handler does with a well-formed request, on the key of its
-- calculation. Saving may fail.
use console_calculator.Prelude.{◌≡◌, inl, inr, Option, none, some, List, ◌∷◌, Option-cases}
use console_calculator.Prelude.Int.{ℤ, pos}
use console_calculator.Text.{Text}
use console_calculator.Support.{Result-cases, ErrorCode, Result, returned, thrown, undefined}
use console_calculator.Support.Exec.{lift, ◌>>◌}
use console_calculator.Core.Checker.{check_arguments}
use console_calculator.Core.Abacus.{MathLib}
use console_calculator.Storage.OperationKey.Kinds.{Kind, word, word-Names, key_of, make-key_of}
use console_calculator.Server.OperationStorage.{OperationStorage}
use console_calculator.Server.ProtocolLib.{ProtocolLib}
use console_calculator.Server.RequestHandler.Handle.{cached_response, calculate, answer_request}
use console_calculator.Server.RequestHandler.Meaning.{operation_of, second_of, operand_of}
use console_calculator.Server.RequestHandler.Given.{
  given, Fits, to_calculator_data-given, operation_to_storage_name-word, second_number-given,
}
use console_calculator.Support.Exec.{chain}
use console_calculator.Storage.{OperationRecord}
use console_calculator.Storage.OperationKey.{make}

module _ (P : ProtocolLib) (M : MathLib) (st : OperationStorage)
    (view : st.State → Text → Option OperationRecord)
    (find_lem : (a : ℤ) (x : Option ℤ) (op : Text) (s : st.State)
      → st.find a x op s ≡ (chain (make a x op) (λ key. returned (view s key)), s)) where
  -- The handler behind the key of the calculation.
  unfoldable pub behind_key :
      P.Request → Kind → ℤ → Option ℤ → st.State → Result Text → Result P.Response × st.State
  behind_key request k a x s (returned key) = elim (view s key) [
    | some found ↦ (cached_response P (P.request_id request) found, s)
    | none ↦
        (lift (check_arguments (given k a x))
            >> calculate P M st (P.request_id request) (given k a x) (word k))
          s
  ]
  behind_key request k a x s (thrown e) = (thrown e, s)
  behind_key request k a x s undefined = (undefined, s)

  pub answer_request-given :
      (request : P.Request) (k : Kind) (a : ℤ) (rest : List ℤ) (s : st.State)
      → P.operation request ≡ operation_of k
      → P.operands request ≡ a ∷ rest
      → Fits a (second_of rest)
      → answer_request P M st request s
        ≡ behind_key request k a (second_of rest) s (key_of k a (operand_of k (second_of rest)))
  unfolding answer_request behind_key
  answer_request-given request k a rest s is_k are_operands fits =
      let x = second_of rest in
      rw
        (
          is_k,
          are_operands,
          to_calculator_data-given k a rest fits,
          operation_to_storage_name-word k,
          second_number-given k a x (pos 0) ErrorCode.error_none,
          find_lem a (operand_of k x) (word k) s,
          make-key_of (word k) k a (operand_of k x) (word-Names k),
        )
        (elim (Result-cases (key_of k a (operand_of k x))) [
          | inl (key, e) ↦ rw e (elim (Option-cases (view s key)) [
            | inl missed ↦ rw (missed, behind_key)
            | inr (r, found) ↦ rw (found, behind_key)
          ])
          | inr (inl (e', e)) ↦ rw e
          | inr (inr e) ↦ rw e
        ])
