-- ===== src/Server/StorageWorker/Answered.antt =====
-- Each accepted job is done, also where nobody asks for the stop: no notification is missed.
use console_calculator.Prelude.{
  ℕ, zero, suc, ◌≤◌, ◌≡◌, refl, sym, subst, ◌∙◌, inl, inr, true, false, Option, none, some, List,
  [], ◌∷◌, arith, Option-cases, Bool-cases, append-nil, ap,
}
use console_calculator.Support.{returned}
use console_calculator.Storage.Postgres.{Libpq}
use console_calculator.Storage.StorageService.{StorageService}
use console_calculator.Server.StorageWorker.{
  Job, StorageWorker, enqueue, request_stop, take_job, run_job, thread_step, run_thread, Reaches,
  begin, accept, ask, take, wake, run,
}
use console_calculator.Server.StorageWorker.Sequential.{
  idle, run_all, Reaches-Left, Reaches-total, total_done,
}
use console_calculator.Server.StorageWorker.Drained.{
  steps_left, thread_step-busy, thread_step-free, thread_step-Reaches, run_thread-Reaches,
}

module _ (L : Libpq) where
  abbrev IsDone : StorageWorker L → Type 0
  IsDone v = (v.running ≡ none) × (v.jobs ≡ [])

  -- A thread that is blocked has nothing to do.
  abbrev Waits : StorageWorker L → Type 0
  Waits v = v.is_waiting ≡ true → IsDone v

  enqueue-Waits :
      (v : StorageWorker L) (job : Job)
      → (enqueue L job v).0 ≡ returned tt
      → Waits (enqueue L job v).1
  unfolding enqueue
  enqueue-Waits v job e = ground arith

  take_job-Waits :
      (v : StorageWorker L) → v.running ≡ none → v.is_waiting ≡ false → Waits (take_job L v)
  unfolding take_job
  take_job-Waits v free awake = ground arith

  busy-Waits :
      (v : StorageWorker L) (job : Job) → v.running ≡ some job → Waits v → Waits (run_job L job v)
  unfolding run_job
  busy-Waits v job busy waits h = absurd (cc ((waits h).0, busy))

  Reaches-Waits :
      (s : StorageService L) (accepted : List Job) (v : StorageWorker L)
      → Reaches L (idle L s) accepted v
      → Waits v
  unfolding request_stop
  Reaches-Waits s _ _ begin h = absurd (cc h)
  Reaches-Waits s _ _ (accept {accepted} {v} job reached e) h = enqueue-Waits v job e h
  Reaches-Waits s _ _ (ask {accepted} {v} reached) h = absurd (cc h)
  Reaches-Waits s accepted _ (take {v = v} reached free here awake) h =
      take_job-Waits v free awake h
  Reaches-Waits s accepted _ (wake {v = v} reached) h = absurd (cc h)
  Reaches-Waits s accepted _ (run {v = v} job reached busy) h =
      busy-Waits v job busy (Reaches-Waits s accepted v reached) h

  -- A thread that can take no step has nothing to do.
  stuck-IsDone :
      (s : StorageService L) (accepted : List Job) (v : StorageWorker L)
      → Reaches L (idle L s) accepted v
      → thread_step L v ≡ none
      → IsDone v
  stuck-IsDone s accepted v reached stuck = elim (Option-cases v.running) [
    | inr (job, busy) ↦ absurd (cc (thread_step-busy L v job busy, stuck))
    | inl free ↦ elim (Bool-cases v.has_left) [
      | inl left ↦ let (_, queue, _) = Reaches-Left L s accepted v reached left in (free, queue)
      | inr here ↦ elim (Bool-cases v.is_waiting) [
        | inl blocked ↦ Reaches-Waits s accepted v reached blocked
        | inr awake ↦ absurd (cc (thread_step-free L v free here awake, stuck))
      ]
    ]
  ]

  none_left-IsDone :
      (v : StorageWorker L) (running : Option Job) (jobs : List Job)
      → v.running ≡ running
      → v.jobs ≡ jobs
      → steps_left L v ≤ 0
      → IsDone v
  none_left-IsDone v none [] free queue bound = (free, queue)
  none_left-IsDone v (some job) jobs busy queue bound =
      absurd (let b = rw busy at bound in omega (arith, b))
  none_left-IsDone v none (job ∷ rest) free queue bound =
      absurd (let b = rw (free, queue) at bound in omega (arith, b))

  take_job-fewer :
      (n : ℕ) (v : StorageWorker L) (jobs : List Job)
      → v.running ≡ none
      → v.jobs ≡ jobs
      → steps_left L v ≤ suc n
      → steps_left L (take_job L v) ≤ n
  unfolding take_job
  take_job-fewer n v [] free queue bound = elim (Bool-cases v.stopping) [
    | inl stops ↦ rw (queue, stops, free) (omega arith)
    | inr goes_on ↦ rw (queue, goes_on, free) (omega arith)
  ]
  take_job-fewer n v (job ∷ rest) free queue bound =
      let b = rw (free, queue) at bound in rw queue (omega (arith, b))

  step-fewer :
      (n : ℕ) (v v' : StorageWorker L)
      → thread_step L v ≡ some v'
      → steps_left L v ≤ suc n
      → steps_left L v' ≤ n
  unfolding thread_step run_job
  step-fewer n v v' e bound = elim (Option-cases v.running) [
    | inr (job, busy) ↦
        let b = rw busy at bound in
        let same : run_job L job v ≡ v' = cc (thread_step-busy L v job busy) in
        subst (λ (w : StorageWorker L). steps_left L w ≤ n) same (omega (arith, b))
    | inl free ↦ elim (Bool-cases v.has_left) [
      | inl left ↦ absurd (cc (rw (free, left) at e))
      | inr here ↦ elim (Bool-cases v.is_waiting) [
        | inl blocked ↦ absurd (cc (rw (free, here, blocked) at e))
        | inr awake ↦
            let same : take_job L v ≡ v' = cc (thread_step-free L v free here awake) in
            subst (λ (w : StorageWorker L). steps_left L w ≤ n) same
              (take_job-fewer n v v.jobs free refl bound)
      ]
    ]
  ]

  run_thread-IsDone :
      (n : ℕ) (s : StorageService L) (accepted : List Job) (v : StorageWorker L)
      → Reaches L (idle L s) accepted v
      → steps_left L v ≤ n
      → IsDone (run_thread L n v)
  unfolding run_thread
  run_thread-IsDone zero s accepted v reached bound =
      none_left-IsDone v v.running v.jobs refl refl bound
  run_thread-IsDone (suc n) s accepted v reached bound = elim (Option-cases (thread_step L v)) [
    | inl stuck ↦ rw (stuck, run_thread) (stuck-IsDone s accepted v reached stuck)
    | inr (v', e) ↦
        rw (e, run_thread)
          (run_thread-IsDone n s accepted v' (thread_step-Reaches L s accepted v v' reached e)
            (step-fewer n v v' e bound))
  ]

  -- Start from an idle worker, and let the threads enqueue, ask for the stop, take and run jobs in any
  -- order, the thread blocked or not; then let the thread go on alone. After at most one step for a job
  -- that it has taken and two for each job in the queue, each accepted job has its reply: replies and
  -- service are those of running the accepted jobs one after another.
  pub run_thread-run_all :
      (s : StorageService L) (accepted : List Job) (v : StorageWorker L) (n : ℕ)
      → Reaches L (idle L s) accepted v
      → steps_left L v ≤ n
      → ((run_thread L n v).replies, (run_thread L n v).service) ≡ run_all L accepted s
  run_thread-run_all s accepted v n reached bound =
      let (free, queue) = run_thread-IsDone n s accepted v reached bound in
      sym (total_done L (run_thread L n v) free queue)
      ∙ Reaches-total L s accepted [] (run_thread L n v)
          (run_thread-Reaches L n s accepted v reached)
      ∙ ap (λ jobs. run_all L jobs s) (append-nil accepted)
