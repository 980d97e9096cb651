-- ===== src/Server/ServiceApplication.antt =====
-- server/src/service-application.cpp and `main` of server/main.cpp: the parts of the service in the order
-- of their starts, and their destructors, which run where a start throws too.
pub mod Parts
pub mod Ends
pub mod ExitCode
use console_calculator.Prelude.{◌≡◌, Bool, true, false, ℕ, Option, none, some, List, [], ◌∷◌, ◌++◌}
use console_calculator.Prelude.Int.{ℤ, pos}
use console_calculator.Text.{Text, codes, to_string}
use console_calculator.Support.{Result, returned, thrown, undefined}
use console_calculator.Support.Exec.{Exec, chain, lift, pure, ◌>>=◌, ◌>>◌}
use console_calculator.Support.Logger
use console_calculator.Support.Logger.{Spdlog, Level, Logger, default_logger_name}
use console_calculator.Server.RequestHandler.{make_handler}
use console_calculator.Server.CommandLine.{config_path_from_args}
use console_calculator.Server.ServerConfig.{ServerConfig, Files, Environment}
use console_calculator.Server.ServerConfig.Load.{from_environment_and_file}
use console_calculator.Server.TcpJsonServer.Lifecycle.{TcpJsonServer}
use console_calculator.Server.TcpJsonServer.Lifecycle
use console_calculator.Server.ServiceApplication.Parts.{
  SignalThread, start_signal_handler, stop_signal_handler, StorageThread, start_storage_worker,
  stop_storage_worker,
}

-- What the parts meet: the library of the logger and the network.
pub record Surroundings : Type 1 where
  pub spdlog : Spdlog
  pub Network : Type 0
  pub listen_at : Text → ℕ → Exec Network ℕ

-- What a run meets: the result of `pthread_sigmask`, whose failure is thrown, what `init_future.get()`
-- gives, and the signal that ends the wait.
pub record Meets : Type 0 where
  pub block_signals : Result (Unit {0})
  pub open_storage : Result (Unit {0})
  pub signal : ℤ

module _ (X : Surroundings) where
  -- The threads of the parts at one moment.
  pub record Threads : Type 0 where
    pub signal_handler : SignalThread
    pub storage : StorageThread
    pub server : TcpJsonServer X.listen_at

  -- `past` holds the threads behind each step.
  pub record ServiceApplication : Type 0 where
    pub threads : Threads
    pub logger : Logger X.spdlog
    pub past : List Threads

  -- A step of one part.
  abbrev pub moved : ServiceApplication → Threads → ServiceApplication
  moved v t = record v { threads = t; past = v.past ++ t ∷ [] }

  unfoldable pub with_logger :
      Exec (Logger X.spdlog) (Unit {0}) → Exec ServiceApplication (Unit {0})
  with_logger call v = let (r, l) = call v.logger in (r, record v { logger = l })

  unfoldable pub info : Text → Exec ServiceApplication (Unit {0})
  info message = with_logger (Logger.log X.spdlog Level.info message)

  unfoldable pub start_signals : Meets → Exec ServiceApplication (Unit {0})
  start_signals met v =
      let (r, t) = start_signal_handler met.block_signals v.threads.signal_handler in
      (r, moved v (record (v.threads) { signal_handler = t }))

  unfoldable pub stop_signals : ServiceApplication → ServiceApplication
  stop_signals v =
      moved v (record (v.threads) { signal_handler = stop_signal_handler v.threads.signal_handler })

  unfoldable pub start_storage : Meets → Exec ServiceApplication (Unit {0})
  start_storage met v =
      let (r, t) = start_storage_worker met.open_storage v.threads.storage in
      (r, moved v (record (v.threads) { storage = t }))

  unfoldable pub stop_storage : ServiceApplication → ServiceApplication
  stop_storage v = moved v (record (v.threads) { storage = stop_storage_worker v.threads.storage })

  -- The server as its constructor makes it.
  unfoldable pub make_server : ServerConfig → ServiceApplication → ServiceApplication
  make_server config v = moved v (record (v.threads) {
    server = record (v.threads.server) {
      config = config;
      running = false;
      accepting = false;
      workers = 0;
      is_context_stopped = false;
    };
  })

  unfoldable pub start_server : Exec ServiceApplication (Unit {0})
  start_server v =
      let (r, t) = Lifecycle.start X.listen_at v.threads.server in
      (r, moved v (record (v.threads) { server = t }))

  unfoldable pub stop_server : ServiceApplication → ServiceApplication
  stop_server v =
      moved v (record (v.threads) { server = Lifecycle.stop X.listen_at v.threads.server })

  -- The wait for `stopping`, which the callback of the signal handler sets: behind it the signal thread
  -- has set `running_` to false and is at its end.
  unfoldable pub wait_for_signal : Meets → Exec ServiceApplication (Unit {0})
  wait_for_signal met = do
    info (codes "Shutdown signal received: " ++ to_string met.signal)
    λ v. (
      returned tt,
      moved v (record (v.threads) {
        signal_handler = record (v.threads.signal_handler) { running = false };
      }),
    )

  -- A local object: its destructor runs behind the rest of the block, whatever that gave.
  abbrev pub scoped :
      (ServiceApplication → ServiceApplication)
      → Exec ServiceApplication ℤ
      → Exec ServiceApplication ℤ
  scoped destroy rest v = let (r, v') = rest v in (r, destroy v')

  unfoldable pub stop_all : Exec ServiceApplication ℤ
  stop_all = do
    λ v. (returned tt, stop_server v)
    λ v. (returned tt, stop_storage v)
    λ v. (returned tt, stop_signals v)
    info (codes "ConsoleCalculatorServer service stopped.")
    λ v. (returned (pos 0), record v { logger = Logger.shutdown X.spdlog v.logger })

  -- From the start of the server to the end of the wait.
  unfoldable pub serve : Meets → Exec ServiceApplication (Unit {0})
  serve met = start_server >> wait_for_signal met

  unfoldable pub run_server : Meets → ServerConfig → Exec ServiceApplication ℤ
  run_server met config v = scoped stop_server (serve met >> stop_all) (make_server config v)

  -- `make_shared<RequestHandler>(storage)` and `TcpJsonServer server(config, handler)` are given no null
  -- pointer.
  unfoldable pub run : Meets → ServerConfig → Exec ServiceApplication ℤ
  run met config = do
    with_logger (Logger.init X.spdlog config.log_file default_logger_name)
    info (codes "ConsoleCalculatorServer service starting.")
    scoped stop_signals (
        start_signals met
        >> scoped stop_storage
            (start_storage met >> lift (make_handler true) >> run_server met config))

-- The `catch` clauses of `main`, both of which end in `return 1`.
unfoldable pub caught : Result ℤ → Result ℤ
caught (thrown e) = returned (pos 1)
caught r = r

-- `main` on the arguments behind the name of the program.
unfoldable pub main :
    (X : Surroundings) → Meets → Files → Environment → List Text → ServiceApplication X → Result ℤ
main X met files environment arguments v = caught (
    chain (from_environment_and_file files environment (config_path_from_args arguments))
      (λ config. (run X met config v).0))
