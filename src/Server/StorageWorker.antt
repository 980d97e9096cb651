-- ===== src/Server/StorageWorker.antt =====
-- server/src/storage-worker.cpp: one thread owns the storage service and does the jobs that the other
-- threads enqueue. Each step is what one thread does while it holds the mutex, with the notification that
-- it sends right behind, or the run of one job.
pub mod Sequential
pub mod Unreachable
pub mod FailedSave
pub mod Lives
pub mod Drained
pub mod Answered
pub mod Failing
pub mod Unstarted
use console_calculator.Prelude.{
  ℕ, zero, suc, ◌≡◌, Bool, true, false, Option, none, some, List, [], ◌∷◌, ◌++◌, if◌then◌else◌,
}
use console_calculator.Prelude.Int.{ℤ}
use console_calculator.Text.{Text, codes}
use console_calculator.Support.{Result, returned, thrown, std_exception}
use console_calculator.Support.Exec.{Exec, chain, ◌>>◌}
use console_calculator.Storage.{OperationRecord}
use console_calculator.Storage.Postgres.{Libpq, connect}
use console_calculator.Storage.CacheRepository
use console_calculator.Storage.StorageService
use console_calculator.Storage.StorageService.{StorageService}
use console_calculator.Server.OperationStorage.{OperationStorage}

-- The closures that `find` and `save` enqueue.
pub data Job : Type 0 where
  find_job : ℤ → Option ℤ → Text → Job
  save_job : OperationRecord → Job

-- What a job puts into its promise: a value or an exception.
pub data Reply : Type 0 where
  found : Result (Option OperationRecord) → Reply
  saved : Result (Unit {0}) → Reply

module _ (L : Libpq) where
  -- `running` is the job that the thread has taken from the queue, `replies` are the promises kept so
  -- far, in their order. `is_waiting`: the thread is blocked in `condition_.wait` and nobody has notified
  -- it since.
  pub record StorageWorker : Type 0 where
    pub stopping : Bool
    pub jobs : List Job
    pub running : Option Job
    pub replies : List Reply
    pub service : StorageService L
    pub has_left : Bool
    pub is_waiting : Bool

  -- The object that the constructor makes, before there is a thread.
  abbrev pub make_worker : L.World → StorageWorker
  make_worker w = record {
    stopping = false;
    jobs = [];
    running = none;
    replies = [];
    service = record { cache = CacheRepository.empty; connection = none; world = w };
    has_left = false;
    is_waiting = false;
  }

  abbrev connection_of : Result (Option L.Conn) → Option L.Conn
  connection_of (returned c) = c
  connection_of _ = none

  unfoldable pub open_connection : Text → Exec (StorageService L) (Unit {0})
  open_connection connection_string s =
      let (c, w) = connect L connection_string s.world in
      (chain c (λ _. returned tt), record s { connection = connection_of c; world = w })

  abbrev pub has_failed : Result (Unit {0}) → Bool
  has_failed (returned _) = false
  has_failed _ = true

  -- `start`, with what `thread_main` does before the promise of the initialisation is kept: the thread
  -- goes on to its loop, or puts its exception into the promise and is over.
  unfoldable pub start : Text → Exec StorageWorker (Unit {0})
  start connection_string w =
      let (r, s) = (open_connection connection_string >> StorageService.initialize L) w.service in
      (r, record w { stopping = false; service = s; has_left = has_failed r })

  -- `job(storage_service)`
  unfoldable pub perform : Job → StorageService L → Reply × StorageService L
  perform (find_job a x op) s = let (r, s') = StorageService.find L a x op s in (found r, s')
  perform (save_job q) s = let (r, s') = StorageService.save L q s in (saved r, s')

  unfoldable pub enqueue : Job → Exec StorageWorker (Unit {0})
  enqueue job w =
      if w.stopping
      then (thrown (std_exception (codes "storage worker is stopping")), w)
      else (returned tt, record w { jobs = w.jobs ++ job ∷ []; is_waiting = false })

  -- The first half of `stop`; the second waits until the thread has left.
  unfoldable pub request_stop : StorageWorker → StorageWorker
  request_stop w = record w { stopping = true; is_waiting = false }

  -- One turn of the loop in `thread_main` up to the run of the job: the thread blocks while it is not
  -- stopping and has no job, leaves where it is stopping and has none, and else takes the first.
  unfoldable pub take_job : StorageWorker → StorageWorker
  take_job w = elim w.jobs [
    | [] ↦ if w.stopping then record w { has_left = true } else record w { is_waiting = true }
    | job ∷ rest ↦ record w { jobs = rest; running = some job }
  ]

  unfoldable pub run_job : Job → StorageWorker → StorageWorker
  run_job job w =
      let (reply, s) = perform job w.service in
      record w { running = none; replies = w.replies ++ reply ∷ []; service = s }

  -- The next step of `thread_main`; `none` where it is blocked or has left.
  unfoldable pub thread_step : StorageWorker → Option StorageWorker
  thread_step w = elim w.running [
    | some job ↦ some (run_job job w)
    | none ↦ if w.has_left then none else if w.is_waiting then none else some (take_job w)
  ]

  -- The worker thread alone, for at most so many steps.
  unfoldable pub run_thread : ℕ → StorageWorker → StorageWorker
  run_thread zero w = w
  run_thread (suc n) w = elim (thread_step w) [ none ↦ w | some w' ↦ run_thread n w' ]

  -- What the threads can do: the first list holds the jobs that were accepted.
  pub data Reaches (w : StorageWorker) : List Job → StorageWorker → Type 0 where
    begin : Reaches w [] w
    accept :
        {accepted : List Job} {v : StorageWorker} (job : Job)
        → Reaches w accepted v
        → (enqueue job v).0 ≡ returned tt
        → Reaches w (accepted ++ job ∷ []) (enqueue job v).1
    ask :
        {accepted : List Job} {v : StorageWorker}
        → Reaches w accepted v
        → Reaches w accepted (request_stop v)
    take :
        {accepted : List Job} {v : StorageWorker}
        → Reaches w accepted v
        → v.running ≡ none
        → v.has_left ≡ false
        → v.is_waiting ≡ false
        → Reaches w accepted (take_job v)
    -- A wake-up without a notification.
    wake :
        {accepted : List Job} {v : StorageWorker}
        → Reaches w accepted v
        → Reaches w accepted (record v { is_waiting = false })
    run :
        {accepted : List Job} {v : StorageWorker} (job : Job)
        → Reaches w accepted v
        → v.running ≡ some job
        → Reaches w accepted (run_job job v)

  -- `StorageWorker::find` and `save` as their caller sees them: the job runs on the service, and the
  -- caller waits for its promise.
  abbrev pub worker_storage : OperationStorage
  worker_storage = record {
    State = StorageService L;
    find = StorageService.find L;
    save = StorageService.save L;
  }
