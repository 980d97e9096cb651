-- ===== src/Server/RequestHandler/Honest.antt =====
-- The handler over a storage whose saves may fail at any time: its records are failures, or hold the
-- outcomes of the calculations whose keys they have.
pub mod Calls
pub mod AnyText
use console_calculator.Prelude.{
  ◌≡◌, ◌≢◌, refl, sym, ap, subst, ◌∙◌, ◌⊎◌, inl, inr, Option, none, some, false, arith, Bool-cases,
  if◌then◌else◌,
}
use console_calculator.Prelude.Int.{ℤ, pos, eqb_ℤ}
use console_calculator.Text.{Text, ◌===◌}
use console_calculator.Text.Equality.{===_iff}
use console_calculator.Support.{
  ErrorCode, Result, returned, thrown, undefined, calculator_exception, error_storage, to_int,
  of_int,
}
use console_calculator.Support.Exec.{lift, ◌>>◌}
use console_calculator.Core.Abacus.{MathLib, MathError, map_math_error, finish_calculation}
use console_calculator.Storage.{OperationRecord}
use console_calculator.Storage.OperationKey.Kinds.{Kind, word, key_of}
use console_calculator.Storage.Postgres.{storage_exception}
use console_calculator.Server.OperationStorage.{OperationStorage, IsCache}
use console_calculator.Server.ProtocolLib.{ProtocolLib, IsLawful, Answer}
use console_calculator.Server.RequestHandler.Handle.{
  recover, save_record, save_success, store_failure, rescue,
}
use console_calculator.Server.RequestHandler.Meaning.{operand_of, value_of, failed}
use console_calculator.Server.RequestHandler.Given.{
  given, left, record_of, make_operation_record-given, is_storable-given,
}
use console_calculator.Server.RequestHandler.Outcome.{stored}
use console_calculator.Server.RequestHandler.Answers.{
  answer_of, Carries, recover-Carries, recover_fresh-Carries,
}
use console_calculator.Server.RequestHandler.Right.{IsOutcome}

module _ (M : MathLib) {st : OperationStorage} (cache : IsCache st) where
  abbrev pub IsHonest : Text → OperationRecord → Type 0
  IsHonest key r = (r.status ≢ pos 0) ⊎ IsOutcome M key r

  abbrev pub HoldsHonest : st.State → Type 0
  HoldsHonest s = (key : Text) (r : OperationRecord) → cache.view s key ≡ some r → IsHonest key r

  -- An honest record that is saved, with or without success, leaves the records honest.
  pub save-HoldsHonest :
      (s : st.State) (r : OperationRecord)
      → HoldsHonest s
      → IsHonest r.cache_key r
      → HoldsHonest (st.save r s).1
  save-HoldsHonest s r holds honest key q found = elim (Bool-cases (r.cache_key === key)) [
    | inl same ↦
        let keys : r.cache_key ≡ key = (===_iff r.cache_key key).0 same in
        let records : r ≡ q = cc (cache.view-save r s key, same, found) in
        subst (λ z. IsHonest key z) records (subst (λ t. IsHonest t r) keys honest)
    | inr other ↦ holds key q (cc (cache.view-save r s key, other, found))
  ]

module _ {P : ProtocolLib} (lawful : IsLawful P) where
  -- A response without a value.
  abbrev pub Withholds : Result P.Response → Type 0
  Withholds (returned response) = (lawful.answer response).value ≡ none
  Withholds _ = ⊥

  -- The response carries this answer, or no value.
  abbrev pub Tells : Answer → Result P.Response → Type 0
  Tells answer r = Carries lawful r answer ⊎ Withholds r

  pub failure-Withholds :
      (id : Text) (c : ℤ) (message : Text)
      → Withholds (recover P id (thrown (calculator_exception c message)))
  unfolding recover
  failure-Withholds id c message =
      ap (λ (answer : Answer). answer.value)
        (recover-Carries lawful id (calculator_exception c message))

module _ (P : ProtocolLib) (M : MathLib) (st : OperationStorage) where
  save_record-save :
      (k : Kind) (a : ℤ) (x : Option ℤ) (v : ℤ) (e : ErrorCode) (status : ℤ) (s : st.State)
      {key : Text}
      → key_of k a (operand_of k x) ≡ returned key
      → save_record P M st (left k a x v e) status (word k) s
        ≡ st.save (record_of k a x status (if eqb_ℤ status (pos 0) then some v else none) key) s
  unfolding save_record
  save_record-save k a x v e status s h = rw (make_operation_record-given k a x v e status h)

  -- A failure is stored, or its exception is dropped.
  store_failure-save :
      (cache : IsCache st) (k : Kind) (a : ℤ) (x : Option ℤ) (v : ℤ) (e : ErrorCode) (status : ℤ)
      (s : st.State) {key : Text}
      → key_of k a (operand_of k x) ≡ returned key
      → eqb_ℤ status (pos 0) ≡ false
      → store_failure P M st (left k a x v e) status (word k) s
        ≡ (returned tt, (st.save (record_of k a x status none key) s).1)
  unfolding store_failure
  store_failure-save cache k a x v e status s {key} h fails =
      let r = record_of k a x status none key in
      rw (is_storable-given k a x v e h, save_record-save k a x v e status s h, fails)
        (elim (cache.save_lem r s) [ inl saved ↦ rw saved | inr (message, lost) ↦ rw lost ])

-- The calculation has this outcome, which its record is there for.
module _ {P : ProtocolLib} (M : MathLib) {st : OperationStorage} (lawful : IsLawful P)
    (cache : IsCache st) where
  -- The call tells the truth or nothing, and leaves the records honest.
  abbrev pub IsTrue : Answer → Result P.Response × st.State → Type 0
  IsTrue answer out = Tells lawful answer out.0 × HoldsHonest M cache out.1

  pub finish-IsTrue :
      (k : Kind) (a : ℤ) (x : Option ℤ) (id : Text) (s : st.State) (o : MathError × ℤ) {key : Text}
      → key_of k a (operand_of k x) ≡ returned key
      → HoldsHonest M cache s
      → IsOutcome M key (stored k a x key (value_of o))
      → let (calculated, d) = finish_calculation M o (given k a x) in
        let (r, s') = rescue P M st d (word k) (
          (lift calculated
              >> save_success P M st id (record d { error_code = ErrorCode.error_none }) (word k))
            s) in
        IsTrue (answer_of id (value_of o)) (recover P id r, s')
  unfolding rescue save_success map_math_error
  finish-IsTrue k a x id s (MathError.error_none, v) {key} h holds right =
      let q = record_of k a x (pos 0) (some v) key in
      let q' = record_of k a x (to_int error_storage) none key in
      let holds' = save-HoldsHonest M cache s q holds (inr right) in
      rw (save_record-save P M st k a x v ErrorCode.error_none (pos 0) s h)
        (elim (cache.save_lem q s) [
          | inl saved ↦
              rw saved
                (inl (recover_fresh-Carries lawful id (returned v) (λ e. absurd (cc e))), holds')
          | inr (message, lost) ↦
              rw
                (
                  lost,
                  store_failure-save P M st cache k a x v (of_int (to_int error_storage))
                      (to_int error_storage) (st.save q s).1 h refl,
                )
                (
                  inr (failure-Withholds lawful id (to_int error_storage) message),
                  save-HoldsHonest M cache (st.save q s).1 q' holds' (inl (ground arith)),
                )
        ])
  finish-IsTrue k a x id s (e, v) {key} h holds right =
      let c = map_math_error e in
      rw (store_failure-save P M st cache k a x v (of_int c) c s h refl) (
        inl (recover-Carries lawful id (failed e)),
        save-HoldsHonest M cache s (record_of k a x c none key) holds (inl (ground arith)),
      )
