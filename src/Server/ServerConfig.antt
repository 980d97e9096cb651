-- ===== src/Server/ServerConfig.antt =====
-- server/include/server-config.h and server/src/server-config.cpp. The text of a file and the value of
-- an environment variable are parameters.
pub mod Strings
pub mod Load
pub mod Conninfo
pub mod Bounds
pub mod Quoted
pub mod TextSettings
pub mod Ports
pub mod Priority
use console_calculator.Prelude.{
  ℕ, Option, none, some, [], ◌∷◌, ◌++◌, Bool, not, ◌&&◌, if◌then◌else◌,
}
use console_calculator.Prelude.Int.{ℤ, pos}
use console_calculator.Text.{Text, codes, is_empty, to_string}
use console_calculator.Server.ServerConfig.Strings.{trim, libpq_escape_value}

pub record ServerConfig : Type 0 where
  pub host : Text
  pub port : ℕ
  pub worker_threads : ℤ
  pub max_message_size : ℕ
  pub log_file : Text
  pub database_host : Text
  pub database_port : ℕ
  pub database_name : Text
  pub database_user : Text
  pub database_password : Text
  pub database_password_file : Text
  pub explicit_database_connection_string : Text

abbrev pub initial_config : ServerConfig
initial_config = record {
  host = codes "0.0.0.0";
  port = 5555;
  worker_threads = pos 4;
  max_message_size = 65536;
  log_file = codes "/var/log/console-calculator/server.log";
  database_host = codes "localhost";
  database_port = 5432;
  database_name = codes "console_calculator";
  database_user = codes "admin";
  database_password = [];
  database_password_file = codes "/run/secrets/cc_db_password";
  explicit_database_connection_string = [];
}

-- What the files hold; `none` is a file that does not open.
abbrev pub Files : Type 0
Files = Text → Option Text

abbrev pub Environment : Type 0
Environment = Text → Option Text

unfoldable pub read_text_file : Files → Text → Text
read_text_file files path = elim (files path) [ none ↦ [] | some content ↦ trim content ]

-- `getenv`, for which an empty value is none.
unfoldable pub environment_value : Environment → Text → Option Text
environment_value environment name = elim (environment name) [
  | none ↦ none
  | some [] ↦ none
  | some (c ∷ s) ↦ some (c ∷ s)
]

-- The password in use.
unfoldable pub password_of : Files → ServerConfig → Text
password_of files config =
    if is_empty config.database_password && not (is_empty config.database_password_file)
    then read_text_file files config.database_password_file
    else config.database_password

unfoldable pub password_part : Text → Text
password_part [] = []
password_part (c ∷ s) = codes " password=" ++ libpq_escape_value (c ∷ s)

unfoldable pub database_connection_string : Files → ServerConfig → Text
database_connection_string files config =
    if not (is_empty config.explicit_database_connection_string)
    then config.explicit_database_connection_string
    else codes "host="
      ++ (libpq_escape_value config.database_host
          ++ (codes " port="
              ++ (to_string (pos config.database_port)
                  ++ (codes " dbname="
                      ++ (libpq_escape_value config.database_name
                          ++ (codes " user="
                              ++ (libpq_escape_value config.database_user
                                  ++ password_part (password_of files config))))))))
