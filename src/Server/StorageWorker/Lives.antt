-- ===== src/Server/StorageWorker/Lives.antt =====
-- The handler over the storage worker, through any number of lives of the program on one database.
use console_calculator.Prelude.{◌≡◌, ◌≢◌, refl, subst, true, List, [], ◌∷◌}
use console_calculator.Prelude.Int.{ℤ}
use console_calculator.Text.{Text}
use console_calculator.Support.{returned, undefined}
use console_calculator.Core.Abacus.{MathLib}
use console_calculator.Storage.CacheRepository
use console_calculator.Storage.CacheRepository.{find_by_key}
use console_calculator.Storage.CacheRepository.Laws.{find_by_key-put}
use console_calculator.Storage.OperationKey.Kinds.{Kind}
use console_calculator.Storage.Postgres.{Libpq}
use console_calculator.Storage.Postgres.HistoryTable.{IsHistoryTable}
use console_calculator.Storage.StorageService
use console_calculator.Storage.StorageService.{StorageService, initialize}
use console_calculator.Storage.StorageService.Restart.{fresh}
use console_calculator.Storage.StorageService.Kept.{
  HoldsAccepted, IsKept, save-IsKept, initialize-IsKept,
}
use console_calculator.Server.OperationStorage.{IsReliable}
use console_calculator.Server.ProtocolLib.{ProtocolLib, IsLawful}
use console_calculator.Server.RequestHandler.Handle.{respond}
use console_calculator.Server.RequestHandler.Meaning.{
  operation_of, second_of, evaluate, IsArithmetic,
}
use console_calculator.Server.RequestHandler.Given.{Fits}
use console_calculator.Server.RequestHandler.Right.{IsOutcome, IsRight}
use console_calculator.Server.RequestHandler.Sound.{IsSound}
use console_calculator.Server.RequestHandler.Answers.{answer_of, Carries}
use console_calculator.Server.RequestHandler.Transparency.{respond_transparent}
use console_calculator.Server.RequestHandler.History.{after, after-IsSound}
use console_calculator.Server.StorageWorker.{worker_storage}

module _ {L : Libpq} (T : IsHistoryTable L) (M : MathLib) where
  -- The worker is up over a table of right records while its connection is.
  unfoldable pub worker_storage-IsReliable : IsReliable (IsRight M) (worker_storage L)
  unfolding StorageService.find StorageService.save CacheRepository.find
  worker_storage-IsReliable = record {
    IsUp = IsKept T (IsRight M);
    view = λ s key. find_by_key key s.cache;
    find_lem = λ a x op s. refl;
    save_lem = λ r s up right. save-IsKept T (IsRight M) (λ q h. h.0) r s up right;
    view-save = λ r s key up right. find_by_key-put r key s.cache;
  }

  -- A start over a table of right records gives a sound storage.
  pub initialize-IsSound :
      (c : L.Conn) (w : L.World)
      → L.is_status_ok c w ≡ true
      → HoldsAccepted T (IsRight M) w
      → IsSound M worker_storage-IsReliable (initialize L (fresh L T c w)).1
  unfolding worker_storage-IsReliable
  initialize-IsSound c w up holds =
      let (_, kept, found) = initialize-IsKept T (IsRight M) (λ q h. h.0) c w up holds in
      (
        kept,
        λ key r e. let (right, keys) = found key r e in subst (λ k. IsOutcome M k r) keys right.1,
      )

module _ (L : Libpq) (T : IsHistoryTable L) (P : ProtocolLib) (M : MathLib) where
  -- One life of the program: it starts with a connection of its own on the world that the life before
  -- left, and handles requests.
  abbrev pub Life : Type 0
  Life = L.Conn × List Text

  unfoldable pub live : Life → L.World → L.World
  live (c, requests) w =
      (after P M (worker_storage L) requests (initialize L (fresh L T c w)).1).world

  unfoldable pub after_lives : List Life → L.World → L.World
  after_lives [] w = w
  after_lives (life ∷ rest) w = after_lives rest (live life w)

  -- Each connection is up when its life starts.
  abbrev pub StartUp : List Life → L.World → Type 0
  StartUp [] w = Unit {0}
  StartUp (life ∷ rest) w = (L.is_status_ok life.0 w ≡ true) × StartUp rest (live life w)

module _ {L : Libpq} (T : IsHistoryTable L) {P : ProtocolLib} {M : MathLib} (lawful : IsLawful P)
    (laws : IsArithmetic M) (total : (json : Text) → P.parse_request json ≢ undefined) where
  pub served-IsSound :
      (c : L.Conn) (requests : List Text) (w : L.World)
      → L.is_status_ok c w ≡ true
      → HoldsAccepted T (IsRight M) w
      → IsSound M
          (worker_storage-IsReliable T M)
          (after P M (worker_storage L) requests (initialize L (fresh L T c w)).1)
  served-IsSound c requests w up holds =
      after-IsSound lawful (worker_storage-IsReliable T M) laws total requests _
        (initialize-IsSound T M c w up holds)

  live-HoldsAccepted :
      (life : Life L T P M) (w : L.World)
      → L.is_status_ok life.0 w ≡ true
      → HoldsAccepted T (IsRight M) w
      → HoldsAccepted T (IsRight M) (live L T P M life w)
  unfolding live worker_storage-IsReliable
  live-HoldsAccepted (c, requests) w up holds = (served-IsSound c requests w up holds).0.holds

  pub lives-HoldsAccepted :
      (lives : List (Life L T P M)) (w : L.World)
      → StartUp L T P M lives w
      → HoldsAccepted T (IsRight M) w
      → HoldsAccepted T (IsRight M) (after_lives L T P M lives w)
  unfolding after_lives
  lives-HoldsAccepted [] w up holds = holds
  lives-HoldsAccepted (life ∷ rest) w up holds =
      lives-HoldsAccepted rest (live L T P M life w) up.1 (live-HoldsAccepted life w up.0 holds)

  -- Given a protocol library that is lawful and whose parser has no undefined behaviour, a library whose
  -- sums and products do not depend on the order of the operands and whose values fit `int`, and a
  -- database that is a history table of right records: after any lives of the program on it, whose
  -- connections are up when they start, and after a start with its connection up and any requests of the
  -- present life, a request of a known operation, whose first operand is there and whose operands fit
  -- `int`, is answered with the value or the error of its calculation.
  pub respond-after_lives :
      (lives : List (Life L T P M)) (w : L.World) (c : L.Conn) (requests : List Text) (json : Text)
      (request : P.Request) (k : Kind) (a : ℤ) (rest : List ℤ)
      → HoldsAccepted T (IsRight M) w
      → StartUp L T P M lives w
      → L.is_status_ok c (after_lives L T P M lives w) ≡ true
      → P.parse_request json ≡ returned request
      → P.operation request ≡ operation_of k
      → P.operands request ≡ a ∷ rest
      → Fits a (second_of rest)
      → let s = (initialize L (fresh L T c (after_lives L T P M lives w))).1 in
        Carries lawful
          (respond P M (worker_storage L) json (after P M (worker_storage L) requests s)).0
          (answer_of (P.request_id request) (evaluate M k a (second_of rest)))
  respond-after_lives lives w c requests json request k a rest holds up_before up parsed is_k
        are_operands fits =
      let w' = after_lives L T P M lives w in
      (respond_transparent lawful (worker_storage-IsReliable T M) laws json request k a rest _
        parsed is_k are_operands fits
        (served-IsSound c requests w' up (lives-HoldsAccepted lives w up_before holds))).0
