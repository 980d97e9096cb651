-- ===== src/Server/RequestHandler/Sound.antt =====
-- A storage whose records hold the outcomes of the calculations whose keys they have.
use console_calculator.Prelude.{◌≡◌, subst, inl, inr, Option, none, some, Bool-cases}
use console_calculator.Prelude.Int.{ℤ}
use console_calculator.Text.{Text, ◌===◌}
use console_calculator.Text.Equality.{===_iff}
use console_calculator.Support.{returned}
use console_calculator.Core.Abacus.{MathLib}
use console_calculator.Storage.{OperationRecord}
use console_calculator.Storage.OperationKey.Kinds.{Kind, key_of}
use console_calculator.Server.OperationStorage.{OperationStorage, IsReliable}
use console_calculator.Server.RequestHandler.Right.{IsOutcome, IsRight, outcome-Holds}
use console_calculator.Server.RequestHandler.Meaning.{operand_of, evaluate, IsArithmetic, Holds}

module _ (M : MathLib) {st : OperationStorage} (reliable : IsReliable (IsRight M) st) where
  -- Every stored record holds the outcome of the calculation whose key it has.
  abbrev pub HoldsOutcomes : st.State → Type 0
  HoldsOutcomes s =
      (key : Text) (r : OperationRecord) → reliable.view s key ≡ some r → IsOutcome M key r

  -- The storage is up and holds right records.
  abbrev pub IsSound : st.State → Type 0
  IsSound s = reliable.IsUp s × HoldsOutcomes s

  -- A storage without records is sound.
  pub empty-IsSound :
      (s : st.State) → reliable.IsUp s → ((key : Text) → reliable.view s key ≡ none) → IsSound s
  empty-IsSound s up h = (up, λ key r e. cc (h key))

  -- What is found under the key of a calculation holds its outcome.
  pub found-Holds :
      (s : st.State) (k : Kind) (a : ℤ) (x : Option ℤ) {key : Text} {r : OperationRecord}
      → IsArithmetic M
      → IsSound s
      → key_of k a (operand_of k x) ≡ returned key
      → reliable.view s key ≡ some r
      → Holds r (evaluate M k a x)
  found-Holds s k a x {key} {r} laws sound e found =
      outcome-Holds M k a x key r laws e (sound.1 key r found)

  save-HoldsOutcomes :
      (s : st.State) (r : OperationRecord)
      → reliable.IsUp s
      → IsRight M r
      → HoldsOutcomes s
      → HoldsOutcomes (st.save r s).1
  save-HoldsOutcomes s r up right sound key q found = elim (Bool-cases (r.cache_key === key)) [
    | inl same ↦
        let keys : r.cache_key ≡ key = (===_iff r.cache_key key).0 same in
        let records : r ≡ q = cc (reliable.view-save r s key up right, same, found) in
        subst (λ z. IsOutcome M key z) records (subst (λ t. IsOutcome M t r) keys right.1)
    | inr other ↦ sound key q (cc (reliable.view-save r s key up right, other, found))
  ]

  -- A right record that is saved leaves the storage sound.
  pub save-IsSound :
      (s : st.State) (r : OperationRecord) → IsSound s → IsRight M r → IsSound (st.save r s).1
  save-IsSound s r sound right =
      ((reliable.save_lem r s sound.0 right).1, save-HoldsOutcomes s r sound.0 right sound.1)
