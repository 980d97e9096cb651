-- ===== src/Lib.antt =====
-- The console calculator's server: a TCP service that takes calculations as lines of JSON, answers
-- them, and remembers what it calculated, in memory and in PostgreSQL.
--
-- The parts and how they interact. A session of the TCP server (server/src/tcp-json-server.cpp)
-- hands each line that it receives to RequestHandler::handle (server/src/request-handler.cpp). The
-- handler parses it, asks its storage for the key of the calculation, and on a miss checks the
-- arguments (core/src/checker.cpp), calculates (core/src/abacus.cpp) and saves the outcome. The
-- storage is behind an interface (server/include/operation-storage.h): an in-memory map for tests
-- (server/src/in-memory-operation-storage.cpp) or a worker thread (server/src/storage-worker.cpp)
-- that owns a StorageService (storage/src/storage-service.cpp), which is a cache
-- (storage/src/cache-repository.cpp) in front of a table of PostgreSQL (storage/postgres/src). Keys
-- are made by storage/src/operation-key.cpp. server/src/server-config.cpp loads the configuration.
-- server/main.cpp gives it to ServiceApplication::run (server/src/service-application.cpp), which
-- starts the logger (support/src/logger.cpp), the signal handler (server/src/signal-handler.cpp),
-- the worker and the TCP server, waits for a signal, and stops them.
--
-- Where each part is modelled. A class is a record of its members, a method a function of the same
-- name; a method that changes its object and may throw is an Exec (Support/Exec.antt): it gives
-- back a Result, which is a value, an exception or undefined behaviour, and the new state. Threads
-- are steps of a relation (Reaches) on the state that they share. Log lines are left out but for
-- those of ServiceApplication::run.
--   Prelude, Prelude/*      integers over the native numbers, Boolean tests, lists
--   Text, Text/*            std::string as bytes, std::to_string, std::stoi, std::stoul, std::stoull
--   Support, Support/*      support/include: ErrorCode, exceptions, the conversions through uint8_t
--   Support/Logger          Logger::Impl: init, shutdown, the null logger that a line makes first
--   Protocol                the enumerations of the protocol library
--   Core, Core/Checker      CalculatorData, Checker::check_arguments
--   Core/Abacus             Abacus::calculate_result, map_math_error
--   Storage                 OperationRecord
--   Storage/OperationKey    OperationKey::make and its tests on operation names
--   Storage/Table           the std::unordered_map of the repositories
--   Storage/CacheRepository put, warm_up, find, find_by_key, size
--   Storage/Postgres        PostgresConnection, PostgresResult
--   Storage/Postgres/Repository
--                           PostgresRepository: init_schema, load_history, save
--   Storage/StorageService  initialize, find, save
--   Server/OperationStorage IOperationStorage, and what a storage that works does
--   Server/InMemoryOperationStorage
--                           the implementation in memory, which fills that interface
--   Server/ProtocolLib      the protocol library that the handler calls
--   Server/RequestHandler, RequestHandler/Handle
--                           the conversions of a request, and handle with its catch clauses
--   RequestHandler/Checked  the checker and the calculator one after the other
--   RequestHandler/Deserved the answer that a text deserves, apart from the storage, with tables of
--                           errors of its own
--   RequestHandler/Honest   the handler over a storage whose saves may fail (IsCache)
--   RequestHandler/Phases, Phases/Interleaved
--                           handle in two phases, and any number of calls of it at once
--   Server/StorageWorker    start, enqueue, stop, the loop of thread_main, as steps of threads
--   StorageWorker/Lives     the worker as the storage of the handler, in one life of the program after
--                           another on the same database
--   StorageWorker/Failing   the worker over a libpq and a database that do anything, from a right cache
--   StorageWorker/Unstarted the worker behind a start that threw
--   Server/ServerConfig, ServerConfig/Strings, ServerConfig/Load
--                           database_connection_string, from_file, from_environment_and_file
--   Server/TcpJsonServer    Session: on_read and the events of its socket, as steps
--   Server/TcpJsonServer/Lifecycle
--                           TcpJsonServer::start and stop
--   Server/TcpJsonServer/Accepting
--                           the constructor, and do_accept between start and stop, as steps
--   Server/Clients, Clients/Production
--                           a session with the handler, whose calls overlap with those of
--                           other sessions, and with the worker
--   Server/SignalHandler    thread_main and stop, as steps of two threads
--   Server/CommandLine      config_path_from_args of server/main.cpp
--   Server/ServiceApplication, ServiceApplication/Parts
--                           run with the destructors of its local objects, main, and the starts and
--                           stops of signal handler and storage worker as run sees them
--   Tests/*                 runs after tests/*.cpp, concrete instances, the theorems applied to them
-- The other files below a part hold lemmas and theorems about it, and are named for what they are
-- about.
--
-- Parameters. Code that is not in the repository is an argument: MathLib (Core/Abacus.antt) is the
-- arithmetic library, of which IsArithmetic (Server/RequestHandler/Meaning.antt) asks that sums and
-- products do not depend on the order of the operands and that values fit int; ProtocolLib is the
-- protocol library, of which IsLawful asks that a response's observers read what its constructors
-- and setters wrote, and nothing of serialize_response; its constructors and serialize_response are
-- taken to return; Libpq (Storage/Postgres.antt) is libpq, of which IsHistoryTable
-- (Storage/Postgres/HistoryTable.antt) asks that the three statements of the repository create,
-- select from and insert into a table whose rows keep the text of their columns, while the
-- connection is up. Spdlog (Support/Logger.antt) is spdlog with the file system. The files on disk,
-- the environment, the clock, the network and, for a run, the results of pthread_sigmask and of the
-- worker's initialisation are arguments too. Tests/Instances.antt and Tests/Database.antt have
-- instances that meet what is asked. A storage that works is IsReliable
-- (Server/OperationStorage.antt): in the states in which it is up and for the records that it
-- accepts it is a map. The one in memory is up always; the worker is up while its connection is and
-- its cache and its table agree.
--
-- Integers and bounds. int is an integer with its range as a condition (InInt); the int64 operands
-- of a request are tested against it as in the source; ErrorCode goes through uint8_t, modulo 256;
-- unsigned long and size_t have 64 bits. std::to_string of n has n as fuel, for all its digits but
-- the first, which are no more than n. The steps of the signal thread and of the worker thread are
-- fuel of run_thread: four are enough where stop waits for the signal thread, and for the worker
-- thread one for a taken job and two for each queued job, and one more behind a stop. All other functions recurse on
-- their data.
--
-- Waiting. The worker thread is blocked (is_waiting) from condition_.wait until a notification or a
-- wake-up without one; a notification is one step with the change that it tells of, which it follows
-- behind the lock. A text that goes to libpq as a C string ends at its first NUL (c_str).
--
-- Not modelled: the threads of the I/O context, whose handlers are steps in any order; a start of
-- the TCP server during or behind a stop of it; a second start of the storage worker; a failure to
-- create a thread; the levels of the log, which spdlog filters. The buffer of a session has
-- no bound in the source, and none here.
pub mod Prelude
pub mod Text
pub mod Protocol
pub mod Support
pub mod Core
pub mod Storage
pub mod Server
mod Tests
