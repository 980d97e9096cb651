-- ===== src/Server/ServiceApplication/Ends.antt =====
-- The ends of a run, returned or thrown, on every outcome of the starts.
use console_calculator.Prelude.{
  ◌≡◌, refl, ◌==◌, ◌||◌, ◌&&◌, inl, inr, arith, Bool, true, false, none, [], All,
}
use console_calculator.Prelude.Int.{ℤ, pos}
use console_calculator.Support.{Result, returned, Result-cases}
use console_calculator.Support.Exec.{chain}
use console_calculator.Support.Logger
use console_calculator.Support.Logger.{make_directories, make_logger, write_line}
use console_calculator.Server.RequestHandler.{make_handler}
use console_calculator.Server.ServerConfig.{ServerConfig, initial_config}
use console_calculator.Server.TcpJsonServer.Lifecycle
use console_calculator.Server.TcpJsonServer.Lifecycle.{TcpJsonServer}
use console_calculator.Server.ServiceApplication.Parts.{
  start_signal_handler, stop_signal_handler, start_storage_worker, stop_storage_worker,
}
use console_calculator.Server.ServiceApplication.{
  Surroundings, Meets, Threads, ServiceApplication, with_logger, info, start_signals, stop_signals,
  start_storage, stop_storage, make_server, start_server, stop_server, wait_for_signal, stop_all,
  serve, run_server, run,
}

module _ (X : Surroundings) where
  -- The process before the run: no thread of a part is there.
  abbrev pub no_threads : X.Network → Threads X
  no_threads n = record {
    signal_handler = record { running = false; has_thread = false };
    storage = record { stopping = false; has_thread = false; serves = false };
    server = record {
      config = initial_config;
      running = false;
      bound_port = 0;
      accepting = false;
      workers = 0;
      is_context_stopped = false;
      network = n;
    };
  }

  abbrev pub before : X.spdlog.World → X.Network → ServiceApplication X
  before w n = record {
    threads = no_threads n;
    logger = record { logger = none; world = w };
    past = [];
  }

  -- The starts in their order: the first that throws is what the run gives, else it gives 0.
  abbrev pub first_failure : Meets → ServerConfig → X.spdlog.World → X.Network → Result ℤ
  first_failure met config w n =
      chain (X.spdlog.open_file config.log_file (make_directories X.spdlog config.log_file w)).0
        (λ _. chain met.block_signals (λ _.
          chain met.open_storage
            (λ _. chain (X.listen_at config.host config.port n).0 (λ _. returned (pos 0)))))

  -- No thread of a part is there.
  abbrev pub IsJoined : Threads X → Type 0
  IsJoined t =
      (t.signal_handler.has_thread ≡ false)
      × (t.storage.has_thread ≡ false)
      × (t.server.workers ≡ 0)

  -- A server with workers has its storage and its signal handler.
  abbrev pub is_guarded : Threads X → Bool
  is_guarded t = (t.storage.serves && t.signal_handler.has_thread) || t.server.workers == 0

  abbrev pub Ends :
      Meets → ServerConfig → X.spdlog.World → X.Network → Result ℤ × ServiceApplication X → Type 0
  Ends met config w n (r, v) =
      (r ≡ first_failure met config w n)
      × IsJoined v.threads
      × All (λ t. is_guarded t ≡ true) v.past

  -- Whatever the starts give, a run from a process without threads gives the exception of the first start
  -- that throws, or 0 if none does; behind it no thread of a part is there; and at each moment of it in
  -- which the server has workers, the storage worker serves and the signal thread is there.
  pub run-Ends :
      (met : Meets) (config : ServerConfig) (w : X.spdlog.World) (n : X.Network)
      → Ends met config w n (run X met config (before w n))
  unfolding run run_server serve stop_all wait_for_signal stop_server start_server make_server
      stop_storage start_storage stop_signals start_signals info with_logger start_signal_handler
      stop_signal_handler start_storage_worker stop_storage_worker Lifecycle.start Lifecycle.stop
      Logger.init Logger.log Logger.shutdown make_logger write_line make_handler
  run-Ends met config w n =
      elim (Result-cases
        (X.spdlog.open_file config.log_file (make_directories X.spdlog config.log_file w)).0) [
          | inr (inl (x, e)) ↦ rw e (refl, (refl, refl, refl), tt)
          | inr (inr e) ↦ rw e (refl, (refl, refl, refl), tt)
          | inl (u, e) ↦ elim (Result-cases met.block_signals) [
            | inr (inl (x, e')) ↦ rw (e, e') (refl, (refl, refl, refl), ground arith)
            | inr (inr e') ↦ rw (e, e') (refl, (refl, refl, refl), ground arith)
            | inl (u', e') ↦ elim (Result-cases met.open_storage) [
              | inr (inl (x, f)) ↦ rw (e, e', f) (refl, (refl, refl, refl), ground arith)
              | inr (inr f) ↦ rw (e, e', f) (refl, (refl, refl, refl), ground arith)
              | inl (u'', f) ↦ elim (Result-cases (X.listen_at config.host config.port n).0) [
                | inr (inl (x, g)) ↦ rw (e, e', f, g) (refl, (refl, refl, refl), ground arith)
                | inr (inr g) ↦ rw (e, e', f, g) (refl, (refl, refl, refl), ground arith)
                | inl (p, g) ↦ rw (e, e', f, g) (refl, (refl, refl, refl), ground arith)
              ]
            ]
          ]
        ]
