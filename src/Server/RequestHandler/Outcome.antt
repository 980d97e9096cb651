-- ===== src/Server/RequestHandler/Outcome.antt =====
-- A calculation that was not in the storage: its answer, and the record that it leaves there.
use console_calculator.Prelude.{◌≡◌, refl, ap, Option, none, some, if◌then◌else◌}
use console_calculator.Prelude.Int.{ℤ, pos, eqb_ℤ}
use console_calculator.Text.{Text}
use console_calculator.Protocol.{ResultSource}
use console_calculator.Support.{
  ErrorCode, Result, returned, thrown, undefined, calculator_exception, of_int,
}
use console_calculator.Support.Exec.{lift, ◌>>◌}
use console_calculator.Core.Abacus.{MathLib, MathError, map_math_error, finish_calculation}
use console_calculator.Storage.{OperationRecord}
use console_calculator.Storage.OperationKey.Kinds.{Kind, word, key_of}
use console_calculator.Server.OperationStorage.{OperationStorage, IsReliable}
use console_calculator.Server.ProtocolLib.{ProtocolLib}
use console_calculator.Server.RequestHandler.Handle.{
  save_record, save_success, store_failure, rescue, calculate,
}
use console_calculator.Server.RequestHandler.Meaning.{operand_of, or_zero, value_of, call, Holds}
use console_calculator.Server.RequestHandler.Given.{
  given, left, record_of, make_operation_record-given, is_storable-given, calculate_result-given,
}

-- The record of an outcome.
abbrev pub stored : Kind → ℤ → Option ℤ → Text → Result ℤ → OperationRecord
stored k a x key (returned v) = record_of k a x (pos 0) (some v) key
stored k a x key (thrown (calculator_exception c message)) = record_of k a x c none key
stored k a x key _ = record_of k a x (pos 0) none key

module _ (P : ProtocolLib) where
  abbrev pub fresh_response : Text → Result ℤ → Result P.Response
  fresh_response id (returned v) =
      returned (P.set_result_source ResultSource.calculated (P.success id v))
  fresh_response id (thrown e) = thrown e
  fresh_response id undefined = undefined

module _ (P : ProtocolLib) (M : MathLib) (st : OperationStorage)
    {Accepts : OperationRecord → Type 0} (reliable : IsReliable Accepts st) where
  save_record-given :
      (k : Kind) (a : ℤ) (x : Option ℤ) (v : ℤ) (e : ErrorCode) (status : ℤ) (s : st.State)
      {key : Text}
      → key_of k a (operand_of k x) ≡ returned key
      → let r = record_of k a x status (if eqb_ℤ status (pos 0) then some v else none) key in
        reliable.IsUp s
        → Accepts r
        → save_record P M st (left k a x v e) status (word k) s ≡ (returned tt, (st.save r s).1)
  unfolding save_record
  save_record-given k a x v e status s {key} h up accepted =
      let r = record_of k a x status (if eqb_ℤ status (pos 0) then some v else none) key in
      rw (make_operation_record-given k a x v e status h) (
        ap {B = Result (Unit {0}) × st.State} (λ (q : Result (Unit {0})). (q, (st.save r s).1))
          (reliable.save_lem r s up accepted).0)

  finish-given :
      (k : Kind) (a : ℤ) (x : Option ℤ) (id : Text) (s : st.State) (o : MathError × ℤ) {key : Text}
      → key_of k a (operand_of k x) ≡ returned key
      → reliable.IsUp s
      → Accepts (stored k a x key (value_of o))
      → let (calculated, d) = finish_calculation M o (given k a x) in
        rescue P M st d (word k) (
          (lift calculated
              >> save_success P M st id (record d { error_code = ErrorCode.error_none }) (word k))
            s)
        ≡ (fresh_response P id (value_of o), (st.save (stored k a x key (value_of o)) s).1)
  unfolding rescue save_success store_failure map_math_error
  finish-given k a x id s (MathError.error_none, v) h up accepted =
      rw (save_record-given k a x v ErrorCode.error_none (pos 0) s h up accepted)
  finish-given k a x id s (e, v) h up accepted =
      let c = map_math_error e in
      rw (
        is_storable-given k a x v (of_int c) h,
        save_record-given k a x v (of_int c) c s h up accepted,
      )

  -- The calculation answers what the arithmetic library gave, and stores just that outcome.
  pub calculate-given :
      (k : Kind) (a : ℤ) (x : Option ℤ) (id : Text) (s : st.State) {key : Text}
      → key_of k a (operand_of k x) ≡ returned key
      → reliable.IsUp s
      → Accepts (stored k a x key (value_of (call M k a (or_zero x))))
      → let o = value_of (call M k a (or_zero x)) in
        calculate P M st id (given k a x) (word k) s
        ≡ (fresh_response P id o, (st.save (stored k a x key o) s).1)
  unfolding calculate
  calculate-given k a x id s h up accepted =
      rw (calculate_result-given M k a x)
        (finish-given k a x id s (call M k a (or_zero x)) h up accepted)

-- What is stored of an outcome of the arithmetic library holds that outcome.
pub stored-Holds :
    (k : Kind) (a : ℤ) (x : Option ℤ) (key : Text) (o : MathError × ℤ)
    → Holds (stored k a x key (value_of o)) (value_of o)
unfolding map_math_error
stored-Holds k a x key (MathError.error_none, v) = (refl, refl)
stored-Holds k a x key (MathError.error_overflow, v) = (refl, λ e. cc)
stored-Holds k a x key (MathError.error_division_by_zero, v) = (refl, λ e. cc)
stored-Holds k a x key (MathError.error_invalid_arguments, v) = (refl, λ e. cc)
stored-Holds k a x key (MathError.other n, v) = (refl, λ e. cc)

-- Its key is the key of the calculation.
pub cache_key-stored :
    (k : Kind) (a : ℤ) (x : Option ℤ) (key : Text) (o : MathError × ℤ)
    → (stored k a x key (value_of o)).cache_key ≡ key
cache_key-stored k a x key (MathError.error_none, v) = refl
cache_key-stored k a x key (_, v) = refl
