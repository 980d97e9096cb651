-- ===== src/Server/StorageWorker/FailedSave.antt =====
-- The handler over a storage service whose records cannot be written.
use console_calculator.Prelude.{◌≡◌, refl, ◌∙◌, false, Option, none, some, List, [], ◌∷◌}
use console_calculator.Prelude.Int.{ℤ, pos}
use console_calculator.Text.{Text}
use console_calculator.Text.Equality.{===_refl}
use console_calculator.Support.{
  error_storage, returned, thrown, to_int, of_int, calculator_exception,
}
use console_calculator.Core.Abacus.{MathLib, MathError}
use console_calculator.Storage.CacheRepository.{put}
use console_calculator.Storage.CacheRepository.Laws.{find_by_key-put}
use console_calculator.Storage.OperationKey.Kinds.{Kind, key_of}
use console_calculator.Storage.Postgres.{Libpq, is_connected, storage_exception}
use console_calculator.Storage.StorageService.{StorageService}
use console_calculator.Server.ProtocolLib.{ProtocolLib, IsLawful}
use console_calculator.Server.RequestHandler.{map_internal_error}
use console_calculator.Server.RequestHandler.Handle.{respond, recover, cached_response}
use console_calculator.Server.RequestHandler.Meaning.{
  operation_of, second_of, operand_of, or_zero, admit, call,
}
use console_calculator.Server.RequestHandler.Given.{Fits, record_of}
use console_calculator.Server.RequestHandler.Found.{behind_key, answer_request-given}
use console_calculator.Server.RequestHandler.Answers.{
  Carries, recover-Carries, recover_cached-Carries,
}
use console_calculator.Server.StorageWorker.{worker_storage}
use console_calculator.Server.StorageWorker.Unreachable.{
  view, lost, unsaved, answer_lost, find_lem, respond-lost,
}

module _ (L : Libpq) (P : ProtocolLib) (M : MathLib) where
  module _ (lawful : IsLawful P) where
    recover-unsaved :
        (id : Text) (k : Kind) (a : ℤ) (x : Option ℤ) (key : Text)
        → Carries lawful
            (recover P id (cached_response P id (unsaved L P M k a x key)))
            (answer_lost L P M id)
    unfolding map_internal_error of_int
    recover-unsaved id k a x key =
        recover_cached-Carries lawful id (unsaved L P M k a x key)
          (thrown (calculator_exception (to_int error_storage) [])) (refl, λ e. cc)

    lost-Carries :
        (id : Text) (message : Text)
        → Carries lawful (recover P id (thrown (storage_exception message))) (answer_lost L P M id)
    unfolding map_internal_error of_int
    lost-Carries id message = recover-Carries lawful id (storage_exception message)

    kept :
        (json : Text) (request : P.Request) (k : Kind) (a : ℤ) (rest : List ℤ)
        (s : StorageService L) (key : Text)
        → P.parse_request json ≡ returned request
        → P.operation request ≡ operation_of k
        → P.operands request ≡ a ∷ rest
        → Fits a (second_of rest)
        → key_of k a (operand_of k (second_of rest)) ≡ returned key
        → view L s key ≡ some (unsaved L P M k a (second_of rest) key)
        → Carries lawful
            (respond P M (worker_storage L) json s).0
            (answer_lost L P M (P.request_id request))
    unfolding respond behind_key
    kept json request k a rest s key parsed is_k are_operands fits has_key found =
        rw
          (
            parsed,
            respond,
            answer_request-given P M (worker_storage L) (view L) (find_lem L P M) request k a rest s
                is_k are_operands fits,
            has_key,
            found,
            behind_key,
          )
          (recover-unsaved (P.request_id request) k a (second_of rest) key)

    -- Given a protocol library that is lawful: a well-formed request that is not in the cache and whose
    -- calculation has the value `v` arrives while the database cannot be reached. It is answered with a
    -- storage error; and in the cache that this leaves, with any connection and any database, the same
    -- request is answered with a storage error again.
    pub respond_failed_save :
        (json : Text) (request : P.Request) (k : Kind) (a v : ℤ) (rest : List ℤ)
        (s : StorageService L) (key : Text) (c : Option L.Conn) (w : L.World)
        → P.parse_request json ≡ returned request
        → P.operation request ≡ operation_of k
        → P.operands request ≡ a ∷ rest
        → Fits a (second_of rest)
        → key_of k a (operand_of k (second_of rest)) ≡ returned key
        → admit k a (second_of rest) ≡ returned tt
        → call M k a (or_zero (second_of rest)) ≡ (MathError.error_none, v)
        → view L s key ≡ none
        → is_connected L s.connection s.world ≡ false
        → let (answer, s') = respond P M (worker_storage L) json s in
          Carries lawful answer (answer_lost L P M (P.request_id request))
          × Carries lawful
              (respond P M (worker_storage L) json (record s' { connection = c; world = w })).0
              (answer_lost L P M (P.request_id request))
    respond_failed_save json request k a v rest s key c w parsed is_k are_operands fits has_key
          admitted called missed down =
        let q = unsaved L P M k a (second_of rest) key in
        let stored = put (record_of k a (second_of rest) (pos 0) (some v) key) s.cache in
        rw
          (respond-lost L P M json request k a v rest s key parsed is_k are_operands fits has_key
            admitted called missed down)
          (
            lost-Carries (P.request_id request) (lost L s),
            kept json request k a rest (record { cache = put q stored; connection = c; world = w })
                key parsed is_k are_operands fits has_key
                (find_by_key-put q key stored ∙ rw (===_refl key)),
          )
