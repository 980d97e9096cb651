-- ===== src/Tests/Application.antt =====
-- The logger, the accepts of the server and whole runs of the service at concrete data.
use console_calculator.Prelude.{
  ◌≡◌, refl, ◌↔◌, true, false, none, some, List, [], ◌∷◌, ◌++◌, ℕ, arith,
}
use console_calculator.Prelude.Int.{pos}
use console_calculator.Text.{Text, codes, to_string, is_empty}
use console_calculator.Support.{returned, thrown, std_exception}
use console_calculator.Support.Exec.{Exec}
use console_calculator.Support.Logger
use console_calculator.Support.Logger.{
  make_logger, write_line, Spdlog, Level, Target, log, shutdown, parent_path, make_directories,
  default_file_path, default_logger_name, up_to_slash, drop_slashes,
}
use console_calculator.Support.Logger.Uses.{inits, logs, use_all, use_all-write_all}
use console_calculator.Server.ServerConfig.{initial_config}
use console_calculator.Server.TcpJsonServer.Accepting.{
  Acceptor, connected, failed, make_server, start_accepting, on_accept, Reaches, begin, starts,
  accepts, Reaches-connections,
}
use console_calculator.Server.TcpJsonServer.Lifecycle
use console_calculator.Server.ServiceApplication
use console_calculator.Server.RequestHandler.{make_handler}
use console_calculator.Server.ServiceApplication.Parts.{
  start_signal_handler, stop_signal_handler, start_storage_worker, stop_storage_worker,
}
use console_calculator.Server.ServiceApplication.{
  Surroundings, Meets, run, main, with_logger, info, start_signals, stop_signals, start_storage,
  stop_storage, start_server, stop_server, wait_for_signal, stop_all, serve, run_server,
}
use console_calculator.Server.ServiceApplication.Ends.{before, Ends, run-Ends}
use console_calculator.Server.ServiceApplication.ExitCode.{StartsUp, main-StartsUp}

-- A file system in which every file opens, seen as its lines.
abbrev files : Spdlog
files = record {
  World = List (Text × Text);
  create_directories = λ path w. w;
  open_file = λ path w. (returned tt, w);
  write = λ path name level message w. w ++ (path, message) ∷ [];
  shutdown = λ w. w;
}

abbrev target : Target
target = record { file = codes "a.log"; name = codes "a" }

use_all-write_all_example :
    use_all files
      (logs Level.info (codes "x")
        ∷ inits (codes "b.log") (codes "b")
        ∷ logs Level.error (codes "y")
        ∷ [])
      (record { logger = some target; world = [] })
    ≡ (
      returned tt,
      record {
        logger = some target;
        world = (codes "a.log", codes "x") ∷ (codes "a.log", codes "y") ∷ [];
      },
    )
use_all-write_all_example =
    use_all-write_all files
      (logs Level.info (codes "x")
        ∷ inits (codes "b.log") (codes "b")
        ∷ logs Level.error (codes "y")
        ∷ [])
      target []

late_line :
    log files Level.info
      (codes "late")
      (shutdown files (record { logger = some target; world = [] }))
    ≡ (
      returned tt,
      record {
        logger = some (record { file = default_file_path; name = default_logger_name });
        world = (default_file_path, codes "late") ∷ [];
      },
    )
unfolding log shutdown Logger.init make_logger write_line make_directories is_empty parent_path
    drop_slashes up_to_slash
late_line = refl

logs_directory : parent_path (codes "logs/x.log") ≡ codes "logs"
unfolding parent_path up_to_slash drop_slashes is_empty
logs_directory = refl

-- `/server.log` is in the root.
in_root : parent_path (codes "/server.log") ≡ codes "/"
unfolding parent_path up_to_slash drop_slashes is_empty
in_root = refl

abbrev listens : Text → ℕ → Exec (Unit {0}) ℕ
listens host port n = (returned port, n)

abbrev made : Acceptor listens
made = record {
  server = record {
    config = initial_config;
    running = false;
    bound_port = 0;
    accepting = false;
    workers = 0;
    is_context_stopped = false;
    network = tt;
  };
  sessions = 0;
  warnings = 0;
  is_stopping = false;
}

-- A connection and then a failed accept.
abbrev served : Acceptor listens
served = record made {
  server = record (made.server) {
    running = true;
    bound_port = 5555;
    accepting = true;
    workers = 4;
  };
  sessions = 1;
  warnings = 1;
}

served-Reaches : Reaches listens made (failed ∷ connected ∷ []) served
unfolding on_accept start_accepting Lifecycle.start
served-Reaches =
    accepts failed
      (accepts connected (starts {v = made} begin refl refl refl) (λ h. absurd (omega (arith, h)))
        refl)
      (λ h. absurd (omega (arith, h))) refl

Reaches-connections_example : (served.server.accepting ≡ true) × (served.sessions ≡ 1)
unfolding make_server
Reaches-connections_example =
    Reaches-connections listens initial_config tt made (failed ∷ connected ∷ []) served refl
      served-Reaches refl (λ h. absurd (omega (arith, h)))

abbrev surroundings : Surroundings
surroundings = record { spdlog = files; Network = Unit {0}; listen_at = listens }

-- The database cannot be reached.
abbrev no_database : Meets
no_database = record {
  block_signals = returned tt;
  open_storage = thrown (std_exception (codes "down"));
  signal = pos 15;
}

abbrev all_well : Meets
all_well = record { block_signals = returned tt; open_storage = returned tt; signal = pos 15 }

run-Ends_example :
    Ends surroundings no_database initial_config [] tt
      (run surroundings no_database initial_config (before surroundings [] tt))
run-Ends_example = run-Ends surroundings no_database initial_config [] tt

main-StartsUp_example :
    (main surroundings all_well (λ path. none) (λ name. none) [] (before surroundings [] tt)
      ≡ returned (pos 0))
    ↔ StartsUp surroundings all_well (λ path. none) (λ name. none) [] [] tt
main-StartsUp_example = main-StartsUp surroundings all_well (λ path. none) (λ name. none) [] [] tt

-- The lines of a run, in the configured file.
run_lines :
    (run surroundings all_well initial_config (before surroundings [] tt)).1.logger ≡ record {
      logger = none;
      world =
          (initial_config.log_file, codes "ConsoleCalculatorServer service starting.")
          ∷ (initial_config.log_file, codes "Shutdown signal received: " ++ to_string (pos 15))
          ∷ (initial_config.log_file, codes "ConsoleCalculatorServer service stopped.")
          ∷ [];
    }
unfolding make_directories is_empty parent_path drop_slashes up_to_slash run run_server serve
    stop_all wait_for_signal stop_server start_server ServiceApplication.make_server stop_storage
    start_storage stop_signals start_signals info with_logger start_signal_handler
    stop_signal_handler start_storage_worker stop_storage_worker Lifecycle.start Lifecycle.stop
    Logger.init Logger.log Logger.shutdown make_logger write_line make_handler
run_lines = refl
