-- ===== src/Tests/Service.antt =====
-- The theorems about the storage service and its worker at concrete data.
use console_calculator.Prelude.{◌≡◌, refl, true, false, none, some, List, [], ◌∷◌, ◌++◌, arith}
use console_calculator.Prelude.Int.{pos, ◌+ℤ◌}
use console_calculator.Text.{codes, c_str}
use console_calculator.Protocol.{ProtocolOperation}
use console_calculator.Support.{returned, thrown}
use console_calculator.Storage.{OperationRecord}
use console_calculator.Storage.Table.{lookup}
use console_calculator.Storage.CacheRepository.{find_by_key}
use console_calculator.Storage.OperationKey.Kinds.{Kind}
use console_calculator.Storage.Postgres.{
  is_connected, connect, ensure_connected, last_error, storage_exception,
}
use console_calculator.Storage.Storable.{IsStorable}
use console_calculator.Storage.Postgres.HistoryTable.{rows_of}
use console_calculator.Storage.StorageService.{StorageService, initialize, find, save}
use console_calculator.Storage.StorageService.Restart.{
  InSync, fresh, initialize-InSync, save-InSync, find-initialize,
}
use console_calculator.Server.StorageWorker.{
  Job, StorageWorker, perform, start, make_worker, open_connection, run_thread, enqueue,
  request_stop, take_job, run_job, Reaches, begin, accept, ask, take, run, worker_storage,
}
use console_calculator.Server.StorageWorker.Sequential.{run_all, idle, Reaches-run_all}
use console_calculator.Server.StorageWorker.Unstarted.{enqueue_all, Reaches-start}
use console_calculator.Server.StorageWorker.Answered.{run_thread-run_all}
use console_calculator.Server.StorageWorker.Drained.{run_thread-request_stop}
use console_calculator.Server.StorageWorker.FailedSave.{respond_failed_save}
use console_calculator.Server.StorageWorker.Unreachable.{answer_lost}
use console_calculator.Server.RequestHandler.Handle.{respond}
use console_calculator.Server.RequestHandler.Answers.{Carries}
use console_calculator.Tests.Instances.{
  Request, plain_protocol, plain_protocol-IsLawful, safe_math, parse,
}
use console_calculator.Tests.Database.{World, one_table, one_table-IsHistoryTable}

-- 2 + 3 as it is stored.
abbrev five : OperationRecord
five = record {
  first_number = pos 2;
  second_number = some (pos 3);
  operation = codes "+";
  result = some (pos 5);
  status = pos 0;
  cache_key = codes "2+3";
}

five-IsStorable : IsStorable five
five-IsStorable = (
  omega arith,
  omega arith,
  (omega arith, tt),
  omega arith,
  omega arith,
  (omega arith, (omega arith, (omega arith, tt))),
)

abbrev holding : List OperationRecord → World
holding records = record { is_up = true; rows = rows_of records }

initialize-InSync_example :
    ((initialize one_table (fresh one_table one_table-IsHistoryTable tt (holding (five ∷ [])))).0
      ≡ returned tt)
    × InSync one_table one_table-IsHistoryTable
        (initialize one_table (fresh one_table one_table-IsHistoryTable tt (holding (five ∷ [])))).1
        (five ∷ [])
unfolding one_table-IsHistoryTable
initialize-InSync_example =
    initialize-InSync one_table one_table-IsHistoryTable tt (holding (five ∷ [])) (five ∷ []) refl
      refl (five-IsStorable, tt)

-- The service on an empty table.
abbrev started : StorageService one_table
started = (initialize one_table (fresh one_table one_table-IsHistoryTable tt (holding []))).1

started-InSync : InSync one_table one_table-IsHistoryTable started []
unfolding one_table-IsHistoryTable
started-InSync =
    (initialize-InSync one_table one_table-IsHistoryTable tt (holding []) [] refl refl tt).1

save-InSync_example :
    ((save one_table five started).0 ≡ returned tt)
    × InSync one_table one_table-IsHistoryTable (save one_table five started).1 ([] ++ five ∷ [])
save-InSync_example =
    save-InSync one_table one_table-IsHistoryTable started [] five started-InSync five-IsStorable
      refl

abbrev with_five : StorageService one_table
with_five = (save one_table five started).1

with_five-InSync : InSync one_table one_table-IsHistoryTable with_five (five ∷ [])
with_five-InSync =
    (save-InSync one_table one_table-IsHistoryTable started [] five started-InSync five-IsStorable
      refl).1

find-initialize_example :
    ((initialize one_table (fresh one_table one_table-IsHistoryTable tt with_five.world)).0
      ≡ returned tt)
    × ((find one_table
          (pos 3)
          (some (pos 2))
          (codes "+")
          (initialize one_table (fresh one_table one_table-IsHistoryTable tt with_five.world)).1).0
        ≡ (find one_table (pos 3) (some (pos 2)) (codes "+") with_five).0)
find-initialize_example =
    find-initialize one_table one_table-IsHistoryTable with_five (five ∷ []) tt (pos 3)
      (some (pos 2)) (codes "+") with_five-InSync with_five-InSync.is_up

abbrev lookup_job : Job
lookup_job = Job.find_job (pos 2) (some (pos 3)) (codes "+")

-- A look-up is accepted, then the stop is asked for; the job is done before the thread leaves.
abbrev one_done : StorageWorker one_table
one_done = run_job one_table lookup_job (record {
  stopping = true;
  jobs = [];
  running = some lookup_job;
  replies = [];
  service = with_five;
  has_left = false;
  is_waiting = false;
})

abbrev gone : StorageWorker one_table
gone = record one_done { has_left = true }

gone-Reaches : Reaches one_table (idle one_table with_five) (lookup_job ∷ []) gone
unfolding enqueue request_stop take_job run_job
gone-Reaches =
    take (run lookup_job (take (ask (accept lookup_job begin refl)) refl refl refl) refl) refl refl
      refl

Reaches-run_all_example :
    (gone.replies, gone.service) ≡ run_all one_table (lookup_job ∷ []) with_five
unfolding run_job
Reaches-run_all_example =
    Reaches-run_all one_table with_five (lookup_job ∷ []) gone gone-Reaches refl

abbrev out_of_reach : StorageService one_table
out_of_reach = record {
  cache = record { cache = [] };
  connection = some tt;
  world = record { is_up = false; rows = [] };
}

abbrev sum_request : Request
sum_request = record {
  id = codes "req";
  operation = ProtocolOperation.addition;
  operands = pos 2 ∷ pos 3 ∷ [];
}

respond_failed_save_example :
    let (answer, s) =
      respond plain_protocol safe_math
        (worker_storage one_table)
        (b'+' ∷ 2 ∷ 3 ∷ [])
        out_of_reach in
    Carries plain_protocol-IsLawful answer
      (answer_lost one_table plain_protocol safe_math (codes "req"))
    × Carries plain_protocol-IsLawful
        (respond plain_protocol safe_math
          (worker_storage one_table)
          (b'+' ∷ 2 ∷ 3 ∷ [])
          (record s { connection = some tt; world = holding [] })).0
        (answer_lost one_table plain_protocol safe_math (codes "req"))
unfolding parse lookup find_by_key is_connected ◌+ℤ◌
respond_failed_save_example =
    respond_failed_save one_table plain_protocol safe_math plain_protocol-IsLawful
      (b'+' ∷ 2 ∷ 3 ∷ []) sum_request Kind.sum (pos 2) (pos 5) (pos 3 ∷ []) out_of_reach _ (some tt)
      (holding []) refl refl refl (omega arith) refl refl refl refl refl

-- A look-up is done, and the thread blocks for want of another.
abbrev blocked : StorageWorker one_table
blocked = record {
  stopping = false;
  jobs = [];
  running = none;
  replies = (perform one_table lookup_job with_five).0 ∷ [];
  service = (perform one_table lookup_job with_five).1;
  has_left = false;
  is_waiting = true;
}

blocked-Reaches : Reaches one_table (idle one_table with_five) (lookup_job ∷ []) blocked
unfolding enqueue take_job run_job
blocked-Reaches =
    take (run lookup_job (take (accept lookup_job begin refl) refl refl refl) refl) refl refl refl

run_thread-request_stop_example :
    ((run_thread one_table 1 (request_stop one_table blocked)).has_left ≡ true)
    × ((
      (run_thread one_table 1 (request_stop one_table blocked)).replies,
      (run_thread one_table 1 (request_stop one_table blocked)).service,
    )
        ≡ run_all one_table (lookup_job ∷ []) with_five)
run_thread-request_stop_example =
    run_thread-request_stop one_table with_five (lookup_job ∷ []) blocked 1 blocked-Reaches
      (omega arith)

-- A second look-up wakes the thread.
abbrev woken : StorageWorker one_table
woken = (enqueue one_table lookup_job blocked).1

woken-Reaches : Reaches one_table (idle one_table with_five) (lookup_job ∷ lookup_job ∷ []) woken
unfolding enqueue
woken-Reaches = accept lookup_job blocked-Reaches refl

run_thread-run_all_example :
    ((run_thread one_table 2 woken).replies, (run_thread one_table 2 woken).service)
    ≡ run_all one_table (lookup_job ∷ lookup_job ∷ []) with_five
unfolding enqueue
run_thread-run_all_example =
    run_thread-run_all one_table with_five (lookup_job ∷ lookup_job ∷ []) woken 2 woken-Reaches
      (omega arith)

-- A look-up on a worker whose start threw.
abbrev unreachable : World
unreachable = record { is_up = false; rows = [] }

abbrev started_in_vain : StorageWorker one_table
started_in_vain = (start one_table [] (make_worker one_table unreachable)).1

abbrev asked_in_vain : StorageWorker one_table
asked_in_vain = (enqueue one_table lookup_job started_in_vain).1

asked_in_vain-Reaches : Reaches one_table started_in_vain (lookup_job ∷ []) asked_in_vain
unfolding enqueue start
asked_in_vain-Reaches = accept lookup_job begin refl

no_start :
    (start one_table [] (make_worker one_table unreachable)).0
    ≡ thrown (storage_exception (codes "PostgreSQL connection failed: "))
unfolding start open_connection connect ensure_connected is_connected last_error c_str
no_start = refl

Reaches-start_example :
    ((enqueue_all one_table (lookup_job ∷ lookup_job ∷ []) started_in_vain).0 ≡ returned tt)
    × (asked_in_vain.replies ≡ [])
    × (asked_in_vain.jobs ≡ lookup_job ∷ [])
Reaches-start_example =
    Reaches-start one_table [] unreachable _ (lookup_job ∷ lookup_job ∷ []) (lookup_job ∷ [])
      asked_in_vain no_start asked_in_vain-Reaches
