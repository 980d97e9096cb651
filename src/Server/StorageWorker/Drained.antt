-- ===== src/Server/StorageWorker/Drained.antt =====
-- The end of the worker thread behind `stop`, which joins it.
use console_calculator.Prelude.{
  ℕ, zero, suc, ◌+◌, ◌*◌, ◌≤◌, ◌≡◌, refl, ap, subst, ◌∙◌, ◌⊎◌, inl, inr, true, false, Option, none,
  some, List, [], ◌∷◌, length, arith, Option-cases, Bool-cases,
}
use console_calculator.Storage.Postgres.{Libpq}
use console_calculator.Storage.StorageService.{StorageService}
use console_calculator.Server.StorageWorker.{
  Job, StorageWorker, request_stop, take_job, run_job, thread_step, run_thread, Reaches, ask, take,
  run,
}
use console_calculator.Server.StorageWorker.Sequential.{idle, run_all, Reaches-run_all}

module _ (L : Libpq) where
  -- A job takes two steps, or one if it is taken.
  abbrev pub steps_left : StorageWorker L → ℕ
  steps_left v = elim v.running [ none ↦ 0 | some job ↦ 1 ] + 2 * length v.jobs

  pub thread_step-busy :
      (v : StorageWorker L) (job : Job)
      → v.running ≡ some job
      → thread_step L v ≡ some (run_job L job v)
  unfolding thread_step
  thread_step-busy v job busy = rw busy

  thread_step-left :
      (v : StorageWorker L) → v.running ≡ none → v.has_left ≡ true → thread_step L v ≡ none
  unfolding thread_step
  thread_step-left v free left = rw (free, left)

  pub thread_step-free :
      (v : StorageWorker L)
      → v.running ≡ none
      → v.has_left ≡ false
      → v.is_waiting ≡ false
      → thread_step L v ≡ some (take_job L v)
  unfolding thread_step
  thread_step-free v free here awake = rw (free, here, awake)

  thread_step-blocked :
      (v : StorageWorker L) → v.running ≡ none → v.is_waiting ≡ true → thread_step L v ≡ none
  unfolding thread_step
  thread_step-blocked v free blocked = ground arith

  take_job-stopping :
      (v : StorageWorker L)
      → v.jobs ≡ []
      → v.stopping ≡ true
      → take_job L v ≡ record v { has_left = true }
  unfolding take_job
  take_job-stopping v queue stops = ground arith

  pub thread_step-Reaches :
      (s : StorageService L) (accepted : List Job) (v v' : StorageWorker L)
      → Reaches L (idle L s) accepted v
      → thread_step L v ≡ some v'
      → Reaches L (idle L s) accepted v'
  thread_step-Reaches s accepted v v' reached e = elim (Option-cases v.running) [
    | inr (job, busy) ↦
        let same : run_job L job v ≡ v' = cc (thread_step-busy v job busy) in
        subst (Reaches L (idle L s) accepted) same (run job reached busy)
    | inl free ↦ elim (Bool-cases v.has_left) [
      | inl left ↦ absurd (cc (thread_step-left v free left))
      | inr here ↦ elim (Bool-cases v.is_waiting) [
        | inl blocked ↦ absurd (cc (thread_step-blocked v free blocked))
        | inr awake ↦
            let same : take_job L v ≡ v' = cc (thread_step-free v free here awake) in
            subst (Reaches L (idle L s) accepted) same (take reached free here awake)
      ]
    ]
  ]

  pub run_thread-Reaches :
      (n : ℕ) (s : StorageService L) (accepted : List Job) (v : StorageWorker L)
      → Reaches L (idle L s) accepted v
      → Reaches L (idle L s) accepted (run_thread L n v)
  unfolding run_thread
  run_thread-Reaches zero s accepted v reached = reached
  run_thread-Reaches (suc n) s accepted v reached = elim (Option-cases (thread_step L v)) [
    | inl waits ↦ rw (waits, run_thread) reached
    | inr (v', e) ↦
        rw (e, run_thread)
          (run_thread-Reaches n s accepted v' (thread_step-Reaches s accepted v v' reached e))
  ]

  -- The step that a thread takes where it has to stop.
  abbrev StopsBy : StorageWorker L → StorageWorker L → Type 0
  StopsBy v v' =
      (thread_step L v ≡ some v')
      × (v'.stopping ≡ true)
      × (v'.is_waiting ≡ false)
      × ((v'.has_left ≡ true) ⊎ ((v'.has_left ≡ false) × (suc (steps_left v') ≡ steps_left v)))

  stopping_step :
      (v : StorageWorker L) (running : Option Job) (jobs : List Job)
      → v.running ≡ running
      → v.jobs ≡ jobs
      → v.stopping ≡ true
      → v.has_left ≡ false
      → v.is_waiting ≡ false
      → (v' : StorageWorker L) × StopsBy v v'
  unfolding run_job take_job
  stopping_step v (some job) jobs busy queue stops here awake = (
    run_job L job v,
    (thread_step-busy v job busy, stops, awake, inr (here, rw busy (omega arith))),
  )
  stopping_step v none [] free queue stops here awake = (
    record v { has_left = true },
    (
      thread_step-free v free here awake
          ∙ ap (λ (w : StorageWorker L). some w) (take_job-stopping v queue stops),
      stops,
      awake,
      inl refl,
    ),
  )
  stopping_step v none (job ∷ rest) free queue stops here awake = (
    record v { jobs = rest; running = some job },
    (
      rw (thread_step-free v free here awake, take_job, queue),
      stops,
      awake,
      inr (here, rw (free, queue) (omega arith)),
    ),
  )

  has_left_step :
      (v v' : StorageWorker L) → v.has_left ≡ true → thread_step L v ≡ some v' → v'.has_left ≡ true
  unfolding run_job
  has_left_step v v' left e = elim (Option-cases v.running) [
    | inr (job, busy) ↦
        let same : run_job L job v ≡ v' = cc (thread_step-busy v job busy) in
        subst (λ (w : StorageWorker L). w.has_left ≡ true) same left
    | inl free ↦ absurd (cc (thread_step-left v free left))
  ]

  has_left_run :
      (n : ℕ) (v : StorageWorker L) → v.has_left ≡ true → (run_thread L n v).has_left ≡ true
  unfolding run_thread
  has_left_run zero v left = left
  has_left_run (suc n) v left = elim (Option-cases (thread_step L v)) [
    | inl waits ↦ rw (waits, run_thread) left
    | inr (v', e) ↦ rw (e, run_thread) (has_left_run n v' (has_left_step v v' left e))
  ]

  run_thread-leaves :
      (n : ℕ) (v : StorageWorker L)
      → v.stopping ≡ true
      → v.has_left ≡ false
      → v.is_waiting ≡ false
      → suc (steps_left v) ≤ n
      → (run_thread L n v).has_left ≡ true
  unfolding run_thread
  run_thread-leaves zero v stops here awake bound = absurd (omega (arith, bound))
  run_thread-leaves (suc n) v stops here awake bound =
      let (v', (e, stops', awake', next)) =
        stopping_step v v.running v.jobs refl refl stops here awake in
      rw (e, run_thread)
        (elim next [
          | inl left ↦ has_left_run n v' left
          | inr (here', fewer) ↦
              run_thread-leaves n v' stops' here' awake' (omega (arith, bound, fewer))
        ])

  stopped-leaves :
      (n : ℕ) (v : StorageWorker L)
      → v.stopping ≡ true
      → v.is_waiting ≡ false
      → suc (steps_left v) ≤ n
      → (run_thread L n v).has_left ≡ true
  stopped-leaves n v stops awake bound = elim (Bool-cases v.has_left) [
    | inl left ↦ has_left_run n v left
    | inr here ↦ run_thread-leaves n v stops here awake bound
  ]

  -- Start from an idle worker, and let the threads enqueue, ask for the stop, take and run jobs in any
  -- order, the thread blocked or not; then ask for the stop, and let the thread go on alone. It leaves after at most one step for a
  -- job that it has taken, two for each job in the queue and one more, and by then each accepted job has
  -- its reply: replies and service are those of running the accepted jobs one after another.
  pub run_thread-request_stop :
      (s : StorageService L) (accepted : List Job) (v : StorageWorker L) (n : ℕ)
      → Reaches L (idle L s) accepted v
      → suc (steps_left v) ≤ n
      → let v' = run_thread L n (request_stop L v) in
        (v'.has_left ≡ true) × ((v'.replies, v'.service) ≡ run_all L accepted s)
  unfolding request_stop
  run_thread-request_stop s accepted v n reached bound =
      let left = stopped-leaves n (request_stop L v) refl refl bound in
      (
        left,
        Reaches-run_all L s accepted (run_thread L n (request_stop L v))
            (run_thread-Reaches n s accepted (request_stop L v) (ask reached)) left,
      )
