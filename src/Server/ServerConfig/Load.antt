-- ===== src/Server/ServerConfig/Load.antt =====
-- `ServerConfig::from_file` and `from_environment_and_file`.
use console_calculator.Prelude.{Option, none, some, List, [], ◌∷◌, ◌++◌, ◌==◌, if◌then◌else◌}
use console_calculator.Text.{Text, codes, ◌===◌}
use console_calculator.Text.Number.{stoi, stoull}
use console_calculator.Support.{Result, returned}
use console_calculator.Support.Exec.{chain}
use console_calculator.Server.ServerConfig.{
  ServerConfig, initial_config, Files, Environment, environment_value,
}
use console_calculator.Server.ServerConfig.Strings.{trim, unquote, parse_uint16}

abbrev pub Setter : Type 0
Setter = ServerConfig → Text → Result ServerConfig

-- What is done with the value of each setting, from the file and from the environment alike; the name
-- stands in the exception of a number that is out of range.
abbrev pub set_port : Text → Setter
set_port name config value =
    chain (parse_uint16 value name) (λ n. returned (record config { port = n }))

abbrev pub set_database_port : Text → Setter
set_database_port name config value =
    chain (parse_uint16 value name) (λ n. returned (record config { database_port = n }))

abbrev pub set_worker_threads : Setter
set_worker_threads config value =
    chain (stoi value) (λ n. returned (record config { worker_threads = n }))

abbrev pub set_max_message_size : Setter
set_max_message_size config value =
    chain (stoull value) (λ n. returned (record config { max_message_size = n }))

unfoldable pub apply_key_value : ServerConfig → Text → Text → Result ServerConfig
apply_key_value config key value =
    if key === codes "host"
    then returned (record config { host = value })
    else if key === codes "port"
    then set_port (codes "port") config value
    else if key === codes "worker_threads"
    then set_worker_threads config value
    else if key === codes "max_message_size"
    then set_max_message_size config value
    else if key === codes "log_file"
    then returned (record config { log_file = value })
    else if key === codes "database_host"
    then returned (record config { database_host = value })
    else if key === codes "database_port"
    then set_database_port (codes "database_port") config value
    else if key === codes "database_name"
    then returned (record config { database_name = value })
    else if key === codes "database_user"
    then returned (record config { database_user = value })
    else if key === codes "database_password"
    then returned (record config { database_password = value })
    else if key === codes "database_password_file"
    then returned (record config { database_password_file = value })
    else if key === codes "database_connection_string"
    then returned (record config { explicit_database_connection_string = value })
    else returned config

-- `std::getline` until it fails: what stands behind the last line feed is a line if it is not empty.
unfoldable pub lines : Text → List Text
lines [] = []
lines (c ∷ s) =
    let rest = lines s in
    if c == 10 then [] ∷ rest else (elim rest [ [] ↦ (c ∷ []) ∷ [] | l ∷ more ↦ (c ∷ l) ∷ more ])

-- `line.erase(line.find('#'))`, where there is one.
unfoldable pub erase_comment : Text → Text
erase_comment [] = []
erase_comment (c ∷ s) = let rest = erase_comment s in if c == b'#' then [] else c ∷ rest

-- What stands before and behind the first `=`.
unfoldable pub split_at_separator : Text → Option (Text × Text)
split_at_separator [] = none
split_at_separator (c ∷ s) =
    let rest = split_at_separator s in
    if c == b'='
    then some ([], s)
    else (elim rest [ none ↦ none | some (before, behind) ↦ some (c ∷ before, behind) ])

-- The body of the loop over the lines. An empty line has no separator.
unfoldable pub apply_line : ServerConfig → Text → Result ServerConfig
apply_line config line = elim (split_at_separator (trim (erase_comment line))) [
  | none ↦ returned config
  | some (before, behind) ↦ apply_key_value config (trim before) (unquote behind)
]

unfoldable pub apply_lines : ServerConfig → List Text → Result ServerConfig
apply_lines config [] = returned config
apply_lines config (line ∷ rest) =
    chain (apply_line config line) (λ config'. apply_lines config' rest)

unfoldable pub from_file : Files → Text → Result ServerConfig
from_file files path = elim (files path) [
  | none ↦ returned initial_config
  | some content ↦ apply_lines initial_config (lines content)
]

-- `if (const char* value = environment_value(name)) { … }`
abbrev pub override : Environment → Text → Setter → ServerConfig → Result ServerConfig
override environment name set config = elim (environment_value environment name) [
  | none ↦ returned config
  | some value ↦ set config value
]

abbrev set_host : Setter
set_host config value = returned (record config { host = value })

abbrev set_log_file : Setter
set_log_file config value = returned (record config { log_file = value })

abbrev set_database_host : Setter
set_database_host config value = returned (record config { database_host = value })

abbrev set_database_name : Setter
set_database_name config value = returned (record config { database_name = value })

abbrev set_database_user : Setter
set_database_user config value = returned (record config { database_user = value })

abbrev set_database_password : Setter
set_database_password config value = returned (record config { database_password = value })

abbrev set_database_password_file : Setter
set_database_password_file config value =
    returned (record config { database_password_file = value })

abbrev pub set_connection_string : Setter
set_connection_string config value =
    returned (record config { explicit_database_connection_string = value })

-- The settings of the environment, in the order of the source; the connection string is last.
abbrev pub first_overrides : List (Text × Setter)
first_overrides =
    (codes "CC_SERVER_HOST", set_host)
    ∷ (codes "CC_SERVER_PORT", set_port (codes "CC_SERVER_PORT"))
    ∷ (codes "CC_SERVER_WORKER_THREADS", set_worker_threads)
    ∷ (codes "CC_SERVER_MAX_MESSAGE_SIZE", set_max_message_size)
    ∷ (codes "CC_SERVER_LOG_FILE", set_log_file)
    ∷ (codes "CC_DB_HOST", set_database_host)
    ∷ (codes "CC_DB_PORT", set_database_port (codes "CC_DB_PORT"))
    ∷ (codes "CC_DB_NAME", set_database_name)
    ∷ (codes "CC_DB_USER", set_database_user)
    ∷ (codes "CC_DB_PASSWORD", set_database_password)
    ∷ (codes "CC_DB_PASSWORD_FILE", set_database_password_file)
    ∷ []

abbrev pub overrides : List (Text × Setter)
overrides = first_overrides ++ (codes "CC_DB_CONNECTION_STRING", set_connection_string) ∷ []

unfoldable pub override_all :
    Environment → List (Text × Setter) → ServerConfig → Result ServerConfig
override_all environment [] config = returned config
override_all environment ((name, set) ∷ rest) config =
    chain (override environment name set config) (override_all environment rest)

unfoldable pub from_environment_and_file : Files → Environment → Text → Result ServerConfig
from_environment_and_file files environment path =
    chain (from_file files path) (override_all environment overrides)
