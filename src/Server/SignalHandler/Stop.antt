-- ===== src/Server/SignalHandler/Stop.antt =====
-- The end of the signal thread, and its callback.
use console_calculator.Prelude.{
  ◌≤◌, ◌≡◌, ◌≢◌, ◌⊎◌, refl, ◌∙◌, sym, Bool, true, false, ◌==◌, some, arith,
}
use console_calculator.Server.SignalHandler.{
  ThreadPlace, SignalHandler, testing, waiting, woken, deciding, calling, ended, uncalled, joining,
  exchanged, thread_step, exchange_running, kill_if, Reaches, start, signal, thread_moves,
  stop_begins, stop_goes_on, run_thread,
}

-- A thread in `sigwait` whose flag is off has a signal to take, or is about to be sent one. The callback
-- has not run before the thread is at its end.
abbrev pub IsAwake : SignalHandler → Type 0
IsAwake v =
    (v.running ≡ false → v.thread ≡ waiting → (v.stopper ≡ exchanged true) ⊎ (1 ≤ v.pending))
    × (v.thread ≢ ended → v.calls ≡ 0)
    × (v.calls ≤ 1)
    × (v.thread ≡ calling → v.running ≡ false)
    × (v.stopper ≢ uncalled → v.running ≡ false)

thread_step-IsAwake : (v v' : SignalHandler) → thread_step v ≡ some v' → IsAwake v → IsAwake v'
unfolding thread_step
thread_step-IsAwake v v' e h = ground arith

exchange_running-IsAwake :
    (v : SignalHandler) → v.stopper ≡ uncalled → IsAwake v → IsAwake (exchange_running v)
unfolding exchange_running
exchange_running-IsAwake v e h = ground arith

kill_if-IsAwake :
    (v : SignalHandler) (b : Bool) → v.stopper ≡ exchanged b → IsAwake v → IsAwake (kill_if b v)
unfolding kill_if
kill_if-IsAwake v b e h = ground arith

Reaches-IsAwake : (v : SignalHandler) → Reaches v → IsAwake v
Reaches-IsAwake _ start = ground arith
Reaches-IsAwake _ (signal {v} reached) = let h = Reaches-IsAwake v reached in ground arith
Reaches-IsAwake v' (thread_moves {v} reached e) =
    thread_step-IsAwake v v' e (Reaches-IsAwake v reached)
Reaches-IsAwake _ (stop_begins {v} reached e) =
    exchange_running-IsAwake v e (Reaches-IsAwake v reached)
Reaches-IsAwake _ (stop_goes_on {v} b reached e) = kill_if-IsAwake v b e (Reaches-IsAwake v reached)

-- A thread whose flag is off and that has a signal to take if it waits is at its end after four steps.
run_thread_at :
    (p : ThreadPlace) (v : SignalHandler)
    → v.thread ≡ p
    → v.running ≡ false
    → (p ≡ waiting → 1 ≤ v.pending)
    → (run_thread 4 v).thread ≡ ended
unfolding run_thread thread_step
run_thread_at testing v e off h = rw (e, off)
run_thread_at waiting v e off h =
    let some_pending : (v.pending == 0) ≡ false = ground (arith, h refl) in
    rw (e, run_thread, some_pending, off)
run_thread_at woken v e off h = rw (e, off)
run_thread_at deciding v e off h = rw e
run_thread_at calling v e off h = rw e
run_thread_at ended v e off h = rw e

joining-ne-uncalled : joining ≢ uncalled
joining-ne-uncalled = cc

awake_joining :
    (v : SignalHandler)
    → v.stopper ≡ joining
    → (v.stopper ≡ exchanged true) ⊎ (1 ≤ v.pending)
    → 1 ≤ v.pending
awake_joining v joins h = ground arith

-- In whatever order signals arrive and the two threads step: the callback is called once at most, and
-- when `stop` waits for the thread, the thread needs four steps of its own at most to its end, so that
-- the join comes to an end.
pub Reaches_ends :
    (v : SignalHandler)
    → Reaches v
    → (v.calls ≤ 1) × (v.stopper ≡ joining → (run_thread 4 v).thread ≡ ended)
Reaches_ends v reached =
    let (awake, _, once, _, off) = Reaches-IsAwake v reached in
    (
      once,
      λ joins.
          let is_off : v.running ≡ false = off (λ h. joining-ne-uncalled (sym joins ∙ h)) in
          run_thread_at v.thread v refl is_off
            (λ waits. awake_joining v joins (awake is_off waits)),
    )
