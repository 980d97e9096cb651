-- ===== src/Server/StorageWorker/Sequential.antt =====
-- The order in which the worker does its jobs.
use console_calculator.Prelude.{
  ◌≡◌, refl, sym, ap, ◌∙◌, true, false, Option, none, some, List, [], ◌∷◌, ◌++◌, append-nil,
  append_assoc, arith,
}
use console_calculator.Support.{returned}
use console_calculator.Storage.Postgres.{Libpq}
use console_calculator.Storage.StorageService.{StorageService}
use console_calculator.Server.StorageWorker.{
  Job, Reply, StorageWorker, perform, enqueue, request_stop, take_job, run_job, Reaches, begin,
  accept, ask, take, wake, run,
}

module _ (L : Libpq) where
  -- The replies to a list of jobs, and the service that they leave.
  abbrev pub run_all : List Job → StorageService L → List Reply × StorageService L
  run_all [] s = ([], s)
  run_all (job ∷ jobs) s =
      let (reply, s') = perform L job s in
      let (replies, s'') = run_all jobs s' in (reply ∷ replies, s'')

  abbrev pub pending : Option Job → List Job → List Job
  pending none jobs = jobs
  pending (some job) jobs = job ∷ jobs

  -- The replies so far with those to the jobs still there.
  abbrev pub total : StorageWorker L → List Job → List Reply × StorageService L
  total w more =
      let (replies, s) = run_all (pending w.running w.jobs ++ more) w.service in
      (w.replies ++ replies, s)

  -- A worker as it is when its initialisation is over.
  abbrev pub idle : StorageService L → StorageWorker L
  idle s = record {
    stopping = false;
    jobs = [];
    running = none;
    replies = [];
    service = s;
    has_left = false;
    is_waiting = false;
  }

  take_job-total :
      (v : StorageWorker L) (more : List Job)
      → v.running ≡ none
      → total (take_job L v) more ≡ total v more
  unfolding take_job
  take_job-total v more idle_thread = ground arith

  run_job-total :
      (v : StorageWorker L) (job : Job) (more : List Job)
      → v.running ≡ some job
      → total (run_job L job v) more ≡ total v more
  unfolding run_job
  run_job-total v job more e = rw e (
      ap (λ replies. (replies, (run_all (v.jobs ++ more) (perform L job v.service).1).1))
        (append_assoc v.replies ((perform L job v.service).0 ∷ [])
          (run_all (v.jobs ++ more) (perform L job v.service).1).0))

  pending-append :
      (running : Option Job) (jobs more : List Job) (job : Job)
      → pending running (jobs ++ job ∷ []) ++ more ≡ pending running jobs ++ job ∷ more
  pending-append none jobs more job = append_assoc jobs (job ∷ []) more
  pending-append (some j) jobs more job = ap (λ rest. j ∷ rest) (append_assoc jobs (job ∷ []) more)

  enqueue_open :
      (v : StorageWorker L) (job : Job) → (enqueue L job v).0 ≡ returned tt → v.stopping ≡ false
  unfolding enqueue
  enqueue_open v job e = ground arith

  enqueue-total :
      (v : StorageWorker L) (job : Job) (more : List Job)
      → (enqueue L job v).0 ≡ returned tt
      → total (enqueue L job v).1 more ≡ total v (job ∷ more)
  unfolding enqueue
  enqueue-total v job more e = rw (enqueue_open v job e, pending-append v.running v.jobs more job)

  request_stop-total :
      (v : StorageWorker L) (more : List Job) → total (request_stop L v) more ≡ total v more
  unfolding request_stop
  request_stop-total v more = refl

  pub Reaches-total :
      (s : StorageService L) (accepted more : List Job) (v : StorageWorker L)
      → Reaches L (idle s) accepted v
      → total v more ≡ run_all (accepted ++ more) s
  Reaches-total s _ more _ begin = refl
  Reaches-total s _ more _ (accept {accepted} {v} job reached e) =
      enqueue-total v job more e
      ∙ Reaches-total s accepted (job ∷ more) v reached
      ∙ ap (λ jobs. run_all jobs s) (sym (append_assoc accepted (job ∷ []) more))
  Reaches-total s _ more _ (ask {accepted} {v} reached) =
      request_stop-total v more ∙ Reaches-total s accepted more v reached
  Reaches-total s accepted more _ (take {v = v} reached idle_thread here awake) =
      take_job-total v more idle_thread ∙ Reaches-total s accepted more v reached
  Reaches-total s accepted more _ (wake {v = v} reached) = Reaches-total s accepted more v reached
  Reaches-total s accepted more _ (run {v = v} job reached e) =
      run_job-total v job more e ∙ Reaches-total s accepted more v reached

  -- Nothing is left behind by a thread that has left.
  abbrev pub Left : StorageWorker L → Type 0
  Left v = v.has_left ≡ true → (v.stopping ≡ true) × (v.jobs ≡ []) × (v.running ≡ none)

  enqueue-Left :
      (v : StorageWorker L) (job : Job)
      → (enqueue L job v).0 ≡ returned tt
      → Left v
      → Left (enqueue L job v).1
  unfolding enqueue
  enqueue-Left v job e left =
      let opened = enqueue_open v job e in rw opened (λ h. let (stops, _, _) = left h in cc)

  take_job-Left :
      (v : StorageWorker L) → v.running ≡ none → v.has_left ≡ false → Left (take_job L v)
  unfolding take_job
  take_job-Left v idle_thread here = ground arith

  pub Reaches-Left :
      (s : StorageService L) (accepted : List Job) (v : StorageWorker L)
      → Reaches L (idle s) accepted v
      → Left v
  unfolding request_stop run_job
  Reaches-Left s _ _ begin h = cc
  Reaches-Left s _ _ (accept {accepted} {v} job reached e) h =
      enqueue-Left v job e (Reaches-Left s accepted v reached) h
  Reaches-Left s _ _ (ask {accepted} {v} reached) h =
      let (_, none_left, no_job) = Reaches-Left s accepted v reached h in (refl, none_left, no_job)
  Reaches-Left s accepted _ (take {v = v} reached idle_thread here awake) h =
      take_job-Left v idle_thread here h
  Reaches-Left s accepted _ (wake {v = v} reached) h = Reaches-Left s accepted v reached h
  Reaches-Left s accepted _ (run {v = v} job reached e) h =
      let (stops, none_left, _) = Reaches-Left s accepted v reached h in (stops, none_left, refl)

  pub total_done :
      (v : StorageWorker L) → v.running ≡ none → v.jobs ≡ [] → total v [] ≡ (v.replies, v.service)
  total_done v no_job none_left =
      rw (no_job, none_left) (ap (λ replies. (replies, v.service)) (append-nil v.replies))

  -- Start from an idle worker, and let the threads enqueue, ask for the stop, take and run jobs in any
  -- order. When the worker thread has left, each accepted job has its reply, in the order of the
  -- acceptance, and replies and service are those of running the accepted jobs one after another.
  pub Reaches-run_all :
      (s : StorageService L) (accepted : List Job) (v : StorageWorker L)
      → Reaches L (idle s) accepted v
      → v.has_left ≡ true
      → (v.replies, v.service) ≡ run_all accepted s
  Reaches-run_all s accepted v reached left =
      let (stops, none_left, no_job) = Reaches-Left s accepted v reached left in
      let all : total v [] ≡ run_all (accepted ++ []) s = Reaches-total s accepted [] v reached in
      sym (total_done v no_job none_left) ∙ all ∙ ap (λ jobs. run_all jobs s) (append-nil accepted)
