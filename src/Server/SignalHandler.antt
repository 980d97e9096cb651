-- ===== src/Server/SignalHandler.antt =====
-- server/src/signal-handler.cpp: the signal thread and the thread that stops it, in steps between which
-- the other may act. `sigwait` on a valid set does not fail, and the callback is one step.
pub mod Stop
use console_calculator.Prelude.{
  ℕ, zero, suc, ◌+◌, ◌-◌, ◌≡◌, Bool, true, false, ◌==◌, not, Option, none, some, if◌then◌else◌,
}

-- Where the signal thread is: at the test of the loop, in `sigwait`, behind it, behind the second test
-- of `running_`, in the callback, or at its end.
pub data ThreadPlace : Type 0 where
  testing waiting woken deciding calling ended : ThreadPlace

-- Where `stop` is: not called, behind the exchange with what it gave back, or at the join.
pub data StopPlace : Type 0 where
  uncalled joining : StopPlace
  exchanged : Bool → StopPlace

pub record SignalHandler : Type 0 where
  pub running : Bool
  pub thread : ThreadPlace
  pub stopper : StopPlace
  -- Signals that the thread could take.
  pub pending : ℕ
  pub calls : ℕ

-- What `start` leaves: the flag is set before the thread is there.
abbrev pub started : SignalHandler
started = record { running = true; thread = testing; stopper = uncalled; pending = 0; calls = 0 }

-- The next step of `thread_main`; `none` where it has to wait or is at its end.
abbrev pub thread_step_at : ThreadPlace → SignalHandler → Option SignalHandler
thread_step_at testing v = some (record v { thread = if v.running then waiting else ended })
thread_step_at waiting v =
    if v.pending == 0 then none else some (record v { thread = woken; pending = v.pending - 1 })
thread_step_at woken v = some (record v { thread = if v.running then deciding else testing })
thread_step_at deciding v = some (record v { thread = calling; running = false })
thread_step_at calling v = some (record v { thread = ended; calls = v.calls + 1 })
thread_step_at ended v = none

unfoldable pub thread_step : SignalHandler → Option SignalHandler
thread_step v = thread_step_at v.thread v

-- `running_.exchange(false)`, then `pthread_kill` if it gave `true`. `stop` may be called again, by the
-- destructor, once it is over.
unfoldable pub exchange_running : SignalHandler → SignalHandler
exchange_running v = record v { running = false; stopper = exchanged v.running }

unfoldable pub kill_if : Bool → SignalHandler → SignalHandler
kill_if was_running v = record v {
  stopper = joining;
  pending = if was_running then v.pending + 1 else v.pending;
}

-- What can happen after `start`. A signal that the kernel merges with a pending one is no step.
pub data Reaches : SignalHandler → Type 0 where
  start : Reaches started
  signal : {v : SignalHandler} → Reaches v → Reaches (record v { pending = v.pending + 1 })
  thread_moves : {v v' : SignalHandler} → Reaches v → thread_step v ≡ some v' → Reaches v'
  stop_begins :
      {v : SignalHandler} → Reaches v → v.stopper ≡ uncalled → Reaches (exchange_running v)
  stop_goes_on :
      {v : SignalHandler} (was_running : Bool)
      → Reaches v
      → v.stopper ≡ exchanged was_running
      → Reaches (kill_if was_running v)

-- The thread alone, for at most so many steps.
unfoldable pub run_thread : ℕ → SignalHandler → SignalHandler
run_thread zero v = v
run_thread (suc n) v = elim (thread_step v) [ none ↦ v | some v' ↦ run_thread n v' ]
