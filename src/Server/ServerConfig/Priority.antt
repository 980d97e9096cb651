-- ===== src/Server/ServerConfig/Priority.antt =====
-- The connection string of the environment.
use console_calculator.Prelude.{◌≡◌, some, List, [], ◌∷◌, ◌++◌, false}
use console_calculator.Text.{Text, codes, is_empty}
use console_calculator.Server.ServerConfig.{
  ServerConfig, Files, Environment, environment_value, database_connection_string,
}
use console_calculator.Server.ServerConfig.Load.{
  Setter, override, first_overrides, set_connection_string, override_all, from_file,
  from_environment_and_file,
}
use console_calculator.Server.ServerConfig.Bounds.{
  OfReturned, IsBounded, AllKeep, chain-OfReturned, overrides-AllKeep, override-Keeps,
  from_file-IsBounded,
}

-- What the last setting establishes holds at the end.
override_all-last :
    (environment : Environment) (settings : List (Text × Setter)) (name : Text) (set : Setter)
    (Q : ServerConfig → Type 0) (config : ServerConfig)
    → AllKeep (settings ++ (name, set) ∷ [])
    → IsBounded config
    → ((config' : ServerConfig) → OfReturned Q (override environment name set config'))
    → OfReturned Q (override_all environment (settings ++ (name, set) ∷ []) config)
unfolding override_all
override_all-last environment [] name set Q config keeps h last =
    chain-OfReturned Q Q (override environment name set config) _ (last config) (λ config' q. q)
override_all-last environment ((n, s) ∷ settings) name set Q config keeps h last =
    chain-OfReturned IsBounded Q (override environment n s config) _
      (override-Keeps environment n s config (keeps.0) h)
      (λ config' k. override_all-last environment settings name set Q config' (keeps.1) k last)

-- Where CC_DB_CONNECTION_STRING is set and not empty, a configuration that loads connects with its value,
-- whatever else the file and the environment hold.
pub from_environment_and_file_connection :
    (files : Files) (environment : Environment) (path value : Text)
    → environment_value environment (codes "CC_DB_CONNECTION_STRING") ≡ some value
    → is_empty value ≡ false
    → OfReturned
        (λ config. database_connection_string files config ≡ value)
        (from_environment_and_file files environment path)
unfolding from_environment_and_file override_all database_connection_string
from_environment_and_file_connection files environment path value given filled =
    chain-OfReturned IsBounded _ (from_file files path) _ (from_file-IsBounded files path)
      (λ config h.
        override_all-last environment first_overrides (codes "CC_DB_CONNECTION_STRING")
          set_connection_string (λ config'. database_connection_string files config' ≡ value) config
          overrides-AllKeep h (λ config'. rw (given, override, filled)))
