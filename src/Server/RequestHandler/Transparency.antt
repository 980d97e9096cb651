-- ===== src/Server/RequestHandler/Transparency.antt =====
-- The handler on a well-formed request, over any storage that is sound.
use console_calculator.Prelude.{
  ◌≡◌, ◌≢◌, refl, ◌⊎◌, inl, inr, Option, none, some, List, ◌∷◌, arith, Option-cases,
}
use console_calculator.Prelude.Int.{ℤ}
use console_calculator.Text.{Text}
use console_calculator.Support.{Result-cases, Result, returned, thrown, undefined}
use console_calculator.Support.Exec.{lift, ◌>>◌}
use console_calculator.Core.Checker.{check_arguments}
use console_calculator.Core.Abacus.{MathLib, MathError}
use console_calculator.Storage.OperationKey.Kinds.{
  Kind, word, key_of, missing_second, factorial, power,
}
use console_calculator.Server.OperationStorage.{OperationStorage, IsReliable}
use console_calculator.Server.ProtocolLib.{ProtocolLib, IsLawful, Answer}
use console_calculator.Server.RequestHandler.Found.{behind_key, answer_request-given}
use console_calculator.Server.RequestHandler.Handle.{recover, calculate, respond}
use console_calculator.Server.RequestHandler.Meaning.{
  operation_of, second_of, operand_of, or_zero, admit, value_of, call, evaluate, IsArithmetic,
}
use console_calculator.Server.RequestHandler.Given.{given, Fits, check_arguments-given}
use console_calculator.Server.RequestHandler.Outcome.{stored, calculate-given}
use console_calculator.Server.RequestHandler.Answers.{
  answer_of, Carries, recover-Carries, recover_cached-Carries, recover_fresh-Carries,
}
use console_calculator.Server.RequestHandler.Right.{IsRight, stored-IsRight}
use console_calculator.Server.RequestHandler.Sound.{IsSound, found-Holds, save-IsSound}

-- A calculation has a key, or it lacks its second operand.
pub key_of-cases :
    (M : MathLib) (k : Kind) (a : ℤ) (x : Option ℤ)
    → ((key : Text) × (key_of k a (operand_of k x) ≡ returned key))
      ⊎ ((key_of k a (operand_of k x) ≡ thrown missing_second)
          × (evaluate M k a x ≡ thrown missing_second))
key_of-cases M factorial a x = inl (_, refl)
key_of-cases M k a none = inr (refl, refl)
key_of-cases M _ a (some b) = inl (_, refl)

pub admit-ne-undefined : (k : Kind) (a : ℤ) (x : Option ℤ) → admit k a x ≢ undefined
admit-ne-undefined factorial a x = ground arith
admit-ne-undefined power a (some b) = ground arith
admit-ne-undefined k a none = cc
admit-ne-undefined _ a (some b) = cc

value_of-ne-undefined : (o : MathError × ℤ) → value_of o ≢ undefined
value_of-ne-undefined (MathError.error_none, v) = cc
value_of-ne-undefined (_, v) = cc

module _ {P : ProtocolLib} {M : MathLib} {st : OperationStorage} (lawful : IsLawful P)
    (reliable : IsReliable (IsRight M) st) (laws : IsArithmetic M) where
  -- The call answers so, and leaves a sound storage.
  abbrev pub Delivers : Answer → Result P.Response × st.State → Type 0
  Delivers answer out = Carries lawful out.0 answer × IsSound M reliable out.1

  calculate-Delivers :
      (id : Text) (k : Kind) (a : ℤ) (x : Option ℤ) (s : st.State) {key : Text}
      → IsSound M reliable s
      → Fits a x
      → key_of k a (operand_of k x) ≡ returned key
      → admit k a x ≡ returned tt
      → let (r, s') = calculate P M st id (given k a x) (word k) s in
        Delivers (answer_of id (evaluate M k a x)) (recover P id r, s')
  calculate-Delivers id k a x s {key} sound fits e admitted =
      let o = value_of (call M k a (or_zero x)) in
      let right = stored-IsRight M k a x key laws fits e admitted in
      rw (calculate-given P M st reliable k a x id s e sound.0 right, admitted)
        (
          recover_fresh-Carries lawful id o (value_of-ne-undefined (call M k a (or_zero x))),
          save-IsSound M reliable s (stored k a x key o) sound right,
        )

  pub missed-Delivers :
      (id : Text) (k : Kind) (a : ℤ) (x : Option ℤ) (s : st.State) {key : Text}
      → IsSound M reliable s
      → Fits a x
      → key_of k a (operand_of k x) ≡ returned key
      → let (r, s') =
          (lift (check_arguments (given k a x)) >> calculate P M st id (given k a x) (word k)) s in
        Delivers (answer_of id (evaluate M k a x)) (recover P id r, s')
  missed-Delivers id k a x s sound fits e =
      rw (check_arguments-given k a x e) (elim (Result-cases (admit k a x)) [
        | inl (u, admitted) ↦
            let delivered = calculate-Delivers id k a x s sound fits e admitted in
            rw admitted (rw admitted at delivered)
        | inr (inl (e', refused)) ↦ rw refused (recover-Carries lawful id e', sound)
        | inr (inr never) ↦ absurd (admit-ne-undefined k a x never)
      ])

  behind_key-Delivers :
      (request : P.Request) (k : Kind) (a : ℤ) (x : Option ℤ) (s : st.State)
      → IsSound M reliable s
      → Fits a x
      → let (r, s') =
          behind_key P M st reliable.view reliable.find_lem request k a x s
            (key_of k a (operand_of k x)) in
        Delivers
          (answer_of (P.request_id request) (evaluate M k a x))
          (recover P (P.request_id request) r, s')
  unfolding behind_key
  behind_key-Delivers request k a x s sound fits =
      let id = P.request_id request in
      elim (key_of-cases M k a x) [
        | inr (e, v) ↦ rw (e, v) (recover-Carries lawful id missing_second, sound)
        | inl (key, e) ↦ rw e (elim (Option-cases (reliable.view s key)) [
          | inr (r, found) ↦
              rw (found, behind_key)
                (
                  recover_cached-Carries lawful id r (evaluate M k a x)
                      (found-Holds M reliable s k a x laws sound e found),
                  sound,
                )
          | inl missed ↦ rw (missed, behind_key) (missed-Delivers id k a x s sound fits e)
        ])
      ]

  -- Given a protocol library that is lawful, a storage that works and a library whose sums and products
  -- do not depend on the order of the operands and whose values fit `int`:
  -- A request of a known operation, whose first operand is there and whose operands fit `int`, is
  -- answered with the value or the error of its calculation, whatever was stored before.
  pub respond_transparent :
      (json : Text) (request : P.Request) (k : Kind) (a : ℤ) (rest : List ℤ) (s : st.State)
      → P.parse_request json ≡ returned request
      → P.operation request ≡ operation_of k
      → P.operands request ≡ a ∷ rest
      → Fits a (second_of rest)
      → IsSound M reliable s
      → Delivers
          (answer_of (P.request_id request) (evaluate M k a (second_of rest)))
          (respond P M st json s)
  unfolding respond
  respond_transparent json request k a rest s parsed is_k are_operands fits sound =
      rw
        (
          parsed,
          respond,
          answer_request-given P M st reliable.view reliable.find_lem request k a rest s is_k
              are_operands fits,
        )
        (behind_key-Delivers request k a (second_of rest) s sound fits)
