-- ===== src/Server/StorageWorker/Unreachable.antt =====
-- What the handler does with a calculation that is not in the cache while the database is out of reach.
use console_calculator.Prelude.{
  ◌≡◌, refl, ◌∙◌, false, Option, none, some, List, ◌∷◌, if◌then◌else◌, ◌++◌,
}
use console_calculator.Prelude.Int.{ℤ, pos, eqb_ℤ}
use console_calculator.Text.{Text, codes}
use console_calculator.Protocol.{ProtocolStatus}
use console_calculator.Support.{error_storage, ErrorCode, returned, thrown, to_int, of_int}
use console_calculator.Support.Exec.{chain}
use console_calculator.Core.Abacus.{MathLib, MathError, map_math_error}
use console_calculator.Storage.{OperationRecord}
use console_calculator.Storage.CacheRepository
use console_calculator.Storage.CacheRepository.{put, find_by_key}
use console_calculator.Storage.OperationKey.{make}
use console_calculator.Storage.OperationKey.Kinds.{Kind, word, key_of}
use console_calculator.Storage.Postgres.{
  Libpq, is_connected, ensure_connected, execute_params, last_error, storage_exception,
}
use console_calculator.Storage.Postgres.Repository
use console_calculator.Storage.StorageService
use console_calculator.Storage.StorageService.{StorageService}
use console_calculator.Server.ProtocolLib.{ProtocolLib, Answer}
use console_calculator.Server.RequestHandler.Handle.{
  respond, answer_request, calculate, rescue, save_success, save_record, store_failure, recover,
}
use console_calculator.Server.RequestHandler.Meaning.{
  operation_of, second_of, operand_of, or_zero, admit, call,
}
use console_calculator.Server.RequestHandler.Given.{
  given, left, Fits, record_of, calculate_result-given, make_operation_record-given,
  is_storable-given, check_arguments-given,
}
use console_calculator.Server.RequestHandler.Found.{behind_key, answer_request-given}
use console_calculator.Server.RequestHandler.Answers.{named}
use console_calculator.Server.StorageWorker.{worker_storage}

module _ (L : Libpq) where
  abbrev pub view : StorageService L → Text → Option OperationRecord
  view s key = find_by_key key s.cache

  -- What `ensure_connected` throws.
  abbrev pub lost : StorageService L → Text
  lost s = codes "PostgreSQL connection failed: " ++ last_error L s.connection s.world

  save_lost :
      (q : OperationRecord) (s : StorageService L)
      → is_connected L s.connection s.world ≡ false
      → StorageService.save L q s
        ≡ (thrown (storage_exception (lost s)), record s { cache = put q s.cache })
  unfolding StorageService.save Repository.save execute_params ensure_connected
  save_lost q s down = rw down

  module _ (P : ProtocolLib) (M : MathLib) where
    -- The failure that takes the place of the value.
    abbrev pub unsaved : Kind → ℤ → Option ℤ → Text → OperationRecord
    unsaved k a x key = record_of k a x (to_int error_storage) none key

    save_record-lost :
        (k : Kind) (a : ℤ) (x : Option ℤ) (v : ℤ) (e : ErrorCode) (status : ℤ)
        (s : StorageService L) (key : Text)
        → key_of k a (operand_of k x) ≡ returned key
        → is_connected L s.connection s.world ≡ false
        → save_record P M (worker_storage L) (left k a x v e) status (word k) s ≡ (
          thrown (storage_exception (lost s)),
          record s {
            cache =
                put
                  (record_of k a x status (if eqb_ℤ status (pos 0) then some v else none) key)
                  s.cache;
          },
        )
    unfolding save_record
    save_record-lost k a x v e status s key has_key down =
        rw (make_operation_record-given k a x v e status has_key) (
          save_lost (record_of k a x status (if eqb_ℤ status (pos 0) then some v else none) key) s
            down)

    pub calculate-lost :
        (id : Text) (k : Kind) (a v : ℤ) (x : Option ℤ) (s : StorageService L) (key : Text)
        → key_of k a (operand_of k x) ≡ returned key
        → call M k a (or_zero x) ≡ (MathError.error_none, v)
        → is_connected L s.connection s.world ≡ false
        → calculate P M (worker_storage L) id (given k a x) (word k) s ≡ (
          thrown (storage_exception (lost s)),
          record s {
            cache = put (unsaved k a x key) (put (record_of k a x (pos 0) (some v) key) s.cache);
          },
        )
    unfolding calculate rescue save_success save_record store_failure map_math_error
    calculate-lost id k a v x s key e called down = rw (
      calculate_result-given M k a x,
      called,
      save_record-lost k a x v ErrorCode.error_none (pos 0) s key e down,
      is_storable-given k a x v (of_int (to_int error_storage)) e,
      save_record-lost k a x v (of_int (to_int error_storage)) (to_int error_storage)
          (record s { cache = put (record_of k a x (pos 0) (some v) key) s.cache }) key e down,
    )

    abbrev pub answer_lost : Text → Answer
    answer_lost id = record {
      answers = named id;
      status = ProtocolStatus.storage_error;
      value = none;
    }

    pub find_lem :
        (a : ℤ) (x : Option ℤ) (op : Text) (s : StorageService L)
        → StorageService.find L a x op s ≡ (chain (make a x op) (λ key. returned (view s key)), s)
    unfolding StorageService.find CacheRepository.find
    find_lem a x op s = refl

    answer_lost_lem :
        (request : P.Request) (k : Kind) (a v : ℤ) (rest : List ℤ) (s : StorageService L)
        (key : Text)
        → P.operation request ≡ operation_of k
        → P.operands request ≡ a ∷ rest
        → Fits a (second_of rest)
        → key_of k a (operand_of k (second_of rest)) ≡ returned key
        → admit k a (second_of rest) ≡ returned tt
        → call M k a (or_zero (second_of rest)) ≡ (MathError.error_none, v)
        → view s key ≡ none
        → is_connected L s.connection s.world ≡ false
        → answer_request P M (worker_storage L) request s ≡ (
          thrown (storage_exception (lost s)),
          record s {
            cache =
                put
                  (unsaved k a (second_of rest) key)
                  (put (record_of k a (second_of rest) (pos 0) (some v) key) s.cache);
          },
        )
    unfolding behind_key
    answer_lost_lem request k a v rest s key is_k are_operands fits has_key admitted called missed
          down =
        let x = second_of rest in
        answer_request-given P M (worker_storage L) view find_lem request k a rest s is_k
          are_operands fits
        ∙ rw (has_key, missed, behind_key, check_arguments-given k a x has_key, admitted)
            (calculate-lost (P.request_id request) k a v x s key has_key called down)

    pub respond-lost :
        (json : Text) (request : P.Request) (k : Kind) (a v : ℤ) (rest : List ℤ)
        (s : StorageService L) (key : Text)
        → P.parse_request json ≡ returned request
        → P.operation request ≡ operation_of k
        → P.operands request ≡ a ∷ rest
        → Fits a (second_of rest)
        → key_of k a (operand_of k (second_of rest)) ≡ returned key
        → admit k a (second_of rest) ≡ returned tt
        → call M k a (or_zero (second_of rest)) ≡ (MathError.error_none, v)
        → view s key ≡ none
        → is_connected L s.connection s.world ≡ false
        → respond P M (worker_storage L) json s ≡ (
          recover P (P.request_id request) (thrown (storage_exception (lost s))),
          record s {
            cache =
                put
                  (unsaved k a (second_of rest) key)
                  (put (record_of k a (second_of rest) (pos 0) (some v) key) s.cache);
          },
        )
    unfolding respond
    respond-lost json request k a v rest s key parsed is_k are_operands fits has_key admitted called
          missed down =
        rw (
          parsed,
          respond,
          answer_lost_lem request k a v rest s key is_k are_operands fits has_key admitted called
              missed down,
        )
