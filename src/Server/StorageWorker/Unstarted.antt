-- ===== src/Server/StorageWorker/Unstarted.antt =====
-- A worker whose start threw: its thread is at its end, and its flag is not set.
use console_calculator.Prelude.{◌≡◌, refl, true, false, none, List, [], ◌∷◌, ◌++◌, arith}
use console_calculator.Text.{Text}
use console_calculator.Support.{Exception, returned, thrown}
use console_calculator.Support.Exec.{Exec, pure, ◌>>◌}
use console_calculator.Storage.Postgres.{Libpq}
use console_calculator.Server.StorageWorker.{
  Job, StorageWorker, make_worker, start, enqueue, request_stop, run_job, Reaches, begin, accept,
  ask, take, wake, run,
}

module _ (L : Libpq) where
  abbrev pub IsDead : List Job → StorageWorker L → Type 0
  IsDead accepted v =
      (v.has_left ≡ true) × (v.running ≡ none) × (v.replies ≡ []) × (v.jobs ≡ accepted)

  enqueue-IsDead :
      (accepted : List Job) (v : StorageWorker L) (job : Job)
      → (enqueue L job v).0 ≡ returned tt
      → IsDead accepted v
      → IsDead (accepted ++ job ∷ []) (enqueue L job v).1
  unfolding enqueue
  enqueue-IsDead accepted v job e dead = ground (arith, dead)

  Reaches-IsDead :
      (w : StorageWorker L) (accepted : List Job) (v : StorageWorker L)
      → IsDead [] w
      → Reaches L w accepted v
      → IsDead accepted v
  unfolding request_stop run_job
  Reaches-IsDead w _ _ dead begin = dead
  Reaches-IsDead w _ _ dead (accept {accepted} {v} job reached e) =
      enqueue-IsDead accepted v job e (Reaches-IsDead w accepted v dead reached)
  Reaches-IsDead w _ _ dead (ask {accepted} {v} reached) = Reaches-IsDead w accepted v dead reached
  Reaches-IsDead w accepted _ dead (take {v = v} reached idle_thread here awake) =
      absurd (cc ((Reaches-IsDead w accepted v dead reached).0, here))
  Reaches-IsDead w accepted _ dead (wake {v = v} reached) = Reaches-IsDead w accepted v dead reached
  Reaches-IsDead w accepted _ dead (run {v = v} job reached e) =
      absurd (cc ((Reaches-IsDead w accepted v dead reached).1, e))

  -- Jobs that one thread enqueues one after another.
  abbrev pub enqueue_all : List Job → Exec (StorageWorker L) (Unit {0})
  enqueue_all [] = pure tt
  enqueue_all (job ∷ jobs) = enqueue L job >> enqueue_all jobs

  enqueue_all-open :
      (jobs : List Job) (v : StorageWorker L)
      → v.stopping ≡ false
      → (enqueue_all jobs v).0 ≡ returned tt
  unfolding enqueue
  enqueue_all-open [] v open_yet = refl
  enqueue_all-open (job ∷ jobs) v open_yet = rw open_yet (
      enqueue_all-open jobs
        (record v { stopping = false; jobs = v.jobs ++ job ∷ []; is_waiting = false }) refl)

  start-IsDead :
      (connection_string : Text) (w : L.World) (e : Exception)
      → (start L connection_string (make_worker L w)).0 ≡ thrown e
      → IsDead [] (start L connection_string (make_worker L w)).1
  unfolding start
  start-IsDead connection_string w e failed = (rw failed, refl, refl, refl)

  -- Where the start of a new worker throws: any number of jobs that are then enqueued are accepted, and
  -- whatever the threads do, no job is ever done; all that were accepted wait in the queue.
  pub Reaches-start :
      (connection_string : Text) (w : L.World) (e : Exception) (jobs accepted : List Job)
      (v : StorageWorker L)
      → (start L connection_string (make_worker L w)).0 ≡ thrown e
      → Reaches L (start L connection_string (make_worker L w)).1 accepted v
      → ((enqueue_all jobs (start L connection_string (make_worker L w)).1).0 ≡ returned tt)
        × (v.replies ≡ [])
        × (v.jobs ≡ accepted)
  unfolding start
  Reaches-start connection_string w e jobs accepted v failed reached =
      let dead = start-IsDead connection_string w e failed in
      let (_, _, none_done, all_wait) =
        Reaches-IsDead (start L connection_string (make_worker L w)).1 accepted v dead reached in
      (
        enqueue_all-open jobs (start L connection_string (make_worker L w)).1 refl,
        none_done,
        all_wait,
      )
