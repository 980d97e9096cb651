-- ===== src/Server/StorageWorker/Failing.antt =====
-- The handler over the storage worker, whatever the database does.
use console_calculator.Prelude.{
  ◌≡◌, refl, ◌⊎◌, inl, inr, ◌==◌, Option, none, some, List, [], ◌∷◌, Bool-cases, Option-cases,
}
use console_calculator.Prelude.Int.{ℤ}
use console_calculator.Text.{Text}
use console_calculator.Support.{Result, returned, thrown}
use console_calculator.Core.Abacus.{MathLib}
use console_calculator.Storage.{OperationRecord}
use console_calculator.Storage.CacheRepository
use console_calculator.Storage.CacheRepository.{find_by_key}
use console_calculator.Storage.CacheRepository.Laws.{find_by_key-put}
use console_calculator.Storage.OperationKey.Kinds.{Kind}
use console_calculator.Storage.Postgres.{
  Libpq, storage_exception, is_connected, ensure_connected, execute_params, make_result, get,
  expect_status, expect_command_ok,
}
use console_calculator.Storage.Postgres.Repository
use console_calculator.Storage.Postgres.Repository.{insert_sql, params_of}
use console_calculator.Storage.StorageService
use console_calculator.Storage.StorageService.{StorageService}
use console_calculator.Server.OperationStorage.{IsCache}
use console_calculator.Server.ProtocolLib.{ProtocolLib, IsLawful}
use console_calculator.Server.RequestHandler.Handle.{respond}
use console_calculator.Server.RequestHandler.Meaning.{
  operation_of, second_of, evaluate, IsArithmetic,
}
use console_calculator.Server.RequestHandler.Given.{Fits}
use console_calculator.Server.RequestHandler.Answers.{answer_of}
use console_calculator.Server.RequestHandler.Honest.{HoldsHonest, Tells}
use console_calculator.Server.RequestHandler.Honest.Calls.{respond-IsTrue}
use console_calculator.Server.RequestHandler.Honest.AnyText.{respond-HoldsHonest}
use console_calculator.Server.StorageWorker.{worker_storage}

module _ (L : Libpq) where
  -- It returns, or throws a storage exception.
  abbrev pub IsStored : Result (Unit {0}) → Type 0
  IsStored r = (r ≡ returned tt) ⊎ ((message : Text) × (r ≡ thrown (storage_exception message)))

  expect_command_ok-IsStored : (r : Option L.Res) → IsStored (expect_command_ok L r)
  unfolding expect_command_ok expect_status get
  expect_command_ok-IsStored none = inr (_, refl)
  expect_command_ok-IsStored (some r) = elim (Bool-cases (L.result_status r == L.command_ok)) [
    | inl ok ↦ rw ok (inl refl)
    | inr bad ↦ rw bad (inr (_, refl))
  ]

  pub save-IsStored :
      (c : Option L.Conn) (r : OperationRecord) (w : L.World) → IsStored (Repository.save L c r w).0
  unfolding Repository.save execute_params ensure_connected make_result is_connected
  save-IsStored none r w = inr (_, refl)
  save-IsStored (some c) r w = elim (Bool-cases (L.is_status_ok c w)) [
    | inr down ↦ rw down (inr (_, refl))
    | inl up ↦ elim (Option-cases (L.exec_params c insert_sql (params_of r) w).0) [
      | inl null ↦ rw (up, null) (inr (_, refl))
      | inr (result, e) ↦ rw (up, e) (expect_command_ok-IsStored (some result))
    ]
  ]

  unfoldable pub worker_storage-IsCache : IsCache (worker_storage L)
  unfolding StorageService.find StorageService.save CacheRepository.find
  worker_storage-IsCache = record {
    view = λ s key. find_by_key key s.cache;
    find_lem = λ a x op s. refl;
    save_lem = λ r s. save-IsStored s.connection r s.world;
    view-save = λ r s key. find_by_key-put r key s.cache;
  }

module _ (L : Libpq) (P : ProtocolLib) (M : MathLib) where
  -- What happens to the server: a text is handled, or the world of the database becomes another.
  pub data Event : Type 0 where
    asks : Text → Event
    becomes : L.World → Event

  unfoldable pub behind_event : Event → StorageService L → StorageService L
  behind_event (asks json) s = (respond P M (worker_storage L) json s).1
  behind_event (becomes w) s = record s { world = w }

  unfoldable pub behind_events : List Event → StorageService L → StorageService L
  behind_events [] s = s
  behind_events (event ∷ events) s = behind_events events (behind_event event s)

module _ (L : Libpq) {P : ProtocolLib} {M : MathLib} (lawful : IsLawful P)
    (laws : IsArithmetic M) where
  behind_event-HoldsHonest :
      (event : Event L P M) (s : StorageService L)
      → HoldsHonest M (worker_storage-IsCache L) s
      → HoldsHonest M (worker_storage-IsCache L) (behind_event L P M event s)
  unfolding behind_event worker_storage-IsCache
  behind_event-HoldsHonest (asks json) s holds =
      respond-HoldsHonest lawful (worker_storage-IsCache L) laws json s holds
  behind_event-HoldsHonest (becomes w) s holds = holds

  behind_events-HoldsHonest :
      (events : List (Event L P M)) (s : StorageService L)
      → HoldsHonest M (worker_storage-IsCache L) s
      → HoldsHonest M (worker_storage-IsCache L) (behind_events L P M events s)
  unfolding behind_events
  behind_events-HoldsHonest [] s holds = holds
  behind_events-HoldsHonest (event ∷ events) s holds =
      behind_events-HoldsHonest events (behind_event L P M event s)
        (behind_event-HoldsHonest event s holds)

  -- Given a protocol library that is lawful and a library whose sums and products do not depend on the
  -- order of the operands and whose values fit `int`, whatever libpq and the database do: start from a
  -- service whose cached records are failures or hold the outcomes of the calculations whose keys they
  -- have, and let texts be handled and the world of the database change in any order. Then a request of a
  -- known operation, whose first operand is there and whose operands fit `int`, is answered with the value
  -- or the error of its calculation, or with a response that has no value.
  pub respond-Tells :
      (events : List (Event L P M)) (s : StorageService L) (json : Text) (request : P.Request)
      (k : Kind) (a : ℤ) (rest : List ℤ)
      → HoldsHonest M (worker_storage-IsCache L) s
      → P.parse_request json ≡ returned request
      → P.operation request ≡ operation_of k
      → P.operands request ≡ a ∷ rest
      → Fits a (second_of rest)
      → Tells lawful
          (answer_of (P.request_id request) (evaluate M k a (second_of rest)))
          (respond P M (worker_storage L) json (behind_events L P M events s)).0
  respond-Tells events s json request k a rest holds parsed is_k are_operands fits =
      (respond-IsTrue lawful (worker_storage-IsCache L) laws json request k a rest
        (behind_events L P M events s) parsed is_k are_operands fits
        (behind_events-HoldsHonest events s holds)).0
