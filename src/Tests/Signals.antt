-- ===== src/Tests/Signals.antt =====
-- The signal thread waits, and is stopped.
use console_calculator.Prelude.{◌≡◌, ◌≤◌, refl, true, false}
use console_calculator.Server.SignalHandler.{
  SignalHandler, waiting, ended, joining, started, thread_step, exchange_running, kill_if, Reaches,
  start, thread_moves, stop_begins, stop_goes_on, run_thread,
}
use console_calculator.Server.SignalHandler.Stop.{Reaches_ends}

abbrev stopped : SignalHandler
stopped = record { running = false; thread = waiting; stopper = joining; pending = 1; calls = 0 }

stopped-Reaches : Reaches stopped
unfolding thread_step exchange_running kill_if
stopped-Reaches =
    stop_goes_on true
      (stop_begins
        (thread_moves {v = started} {v' = record started { thread = waiting }} start refl) refl)
      refl

Reaches_ends_example :
    (stopped.calls ≤ 1) × (stopped.stopper ≡ joining → (run_thread 4 stopped).thread ≡ ended)
Reaches_ends_example = Reaches_ends stopped stopped-Reaches
