-- ===== src/Server/ServiceApplication/Parts.antt =====
-- `start` and `stop` of the signal handler and of the storage worker, as the thread that owns them sees them.
use console_calculator.Prelude.{Bool, true, false, if◌then◌else◌}
use console_calculator.Support.{Result, returned}
use console_calculator.Support.Exec.{Exec}

pub record SignalThread : Type 0 where
  pub running : Bool
  pub has_thread : Bool

-- `SignalHandler::start`; the result is that of `pthread_sigmask`, whose failure is thrown.
abbrev pub block_and_start : SignalThread → Result (Unit {0}) → Result (Unit {0}) × SignalThread
block_and_start t (returned u) = (returned tt, record { running = true; has_thread = true })
block_and_start t r = (r, record t { running = false })

unfoldable pub start_signal_handler : Result (Unit {0}) → Exec SignalThread (Unit {0})
start_signal_handler blocked t = if t.running then (returned tt, t) else block_and_start t blocked

-- `SignalHandler::stop`: the thread is woken and joined.
unfoldable pub stop_signal_handler : SignalThread → SignalThread
stop_signal_handler t = record { running = false; has_thread = false }

-- The thread of the storage worker serves jobs once its initialisation is over.
pub record StorageThread : Type 0 where
  pub stopping : Bool
  pub has_thread : Bool
  pub serves : Bool

-- `StorageWorker::start`: the thread puts the result of its initialisation, value or exception, into the
-- promise, and `init_future.get()` gives it; behind an exception the thread is at its end.
unfoldable pub start_storage_worker : Result (Unit {0}) → Exec StorageThread (Unit {0})
start_storage_worker initialized t = (
  initialized,
  record {
    stopping = false;
    has_thread = true;
    serves = elim initialized [ returned u ↦ true | _ ↦ false ];
  },
)

-- `StorageWorker::stop`: the thread does the jobs that it has, and is joined.
unfoldable pub stop_storage_worker : StorageThread → StorageThread
stop_storage_worker t = record { stopping = true; has_thread = false; serves = false }
