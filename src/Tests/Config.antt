-- ===== src/Tests/Config.antt =====
-- Configurations as they load, and the theorems about them at concrete data.
use console_calculator.Prelude.{◌++◌, ◌≡◌, refl, none, some, List, [], ◌∷◌, arith, if◌then◌else◌}
use console_calculator.Prelude.Int.{pos}
use console_calculator.Text.{Text, codes, ◌===◌, to_string, is_empty}
use console_calculator.Text.Number.{
  stoi, stoul, skip_spaces, read_signed, read_magnitude, read_digits,
}
use console_calculator.Text.Number.RoundTrip.{stoi-to_string}
use console_calculator.Support.{returned}
use console_calculator.Server.CommandLine.{
  config_path_from_args, default_path, config_path_from_args_lem,
}
use console_calculator.Server.ServerConfig.{
  read_text_file, ServerConfig, initial_config, Files, Environment, environment_value,
  database_connection_string, password_of,
}
use console_calculator.Server.ServerConfig.Strings.{
  trim, unquote, erase_blanks, strip_quotes, unsnoc, parse_uint16,
}
use console_calculator.Server.ServerConfig.Load.{
  apply_key_value, apply_line, from_file, from_environment_and_file, erase_comment,
  split_at_separator,
}
use console_calculator.Server.ServerConfig.Conninfo.{c_str-database_connection_string}
use console_calculator.Server.ServerConfig.Bounds.{OfReturned}
use console_calculator.Server.ServerConfig.Ports.{HasPort, from_environment_and_file_port}
use console_calculator.Server.ServerConfig.Quoted.{file_of}
use console_calculator.Server.ServerConfig.TextSettings.{TextKey, with_names, from_file-last_value}
use console_calculator.Server.ServerConfig.Priority.{from_environment_and_file_connection}

reads_back : stoi (to_string (pos 42)) ≡ returned (pos 42)
reads_back = stoi-to_string (pos 42) (omega arith)

-- `#` starts a comment in quotes too.
cut_password :
    apply_line initial_config (codes "database_password=\"a#b\"")
    ≡ returned (record initial_config { database_password = codes "\"a" })
unfolding apply_line erase_comment split_at_separator trim erase_blanks unquote strip_quotes unsnoc
    apply_key_value ◌===◌
cut_password = refl

-- 2^64 - 1 with a minus sign is 1, and letters behind a number are ignored.
odd_port : parse_uint16 (codes "-18446744073709551615") (codes "port") ≡ returned 1
unfolding parse_uint16 stoul skip_spaces read_signed read_magnitude read_digits
odd_port = refl

trailing_letters : parse_uint16 (codes "5555abc") (codes "port") ≡ returned 5555
unfolding parse_uint16 stoul skip_spaces read_signed read_magnitude read_digits
trailing_letters = refl

abbrev one_file : Files
one_file path = some (file_of ((codes "host", codes "127.0.0.1") ∷ []))

abbrev one_variable : Environment
one_variable name =
    if name === codes "CC_DB_CONNECTION_STRING" then some (codes "host=db") else none

abbrev quoting : ServerConfig
quoting = record initial_config { database_password = codes "it's" }

-- The same password from its file.
abbrev secret_file : Files
secret_file path = some (codes "it's\n")

c_str-database_connection_string_example :
    (quoting.database_host ≡ initial_config.database_host)
    × (quoting.database_port ≡ initial_config.database_port)
    × (quoting.database_name ≡ initial_config.database_name)
    × (quoting.database_user ≡ initial_config.database_user)
    × (password_of one_file quoting ≡ password_of secret_file initial_config)
unfolding database_connection_string password_of is_empty read_text_file trim erase_blanks unsnoc
c_str-database_connection_string_example =
    c_str-database_connection_string one_file secret_file quoting initial_config refl refl
      (ground arith, ground arith, ground arith, ground arith)
      (ground arith, ground arith, ground arith, ground arith) (omega arith) (omega arith) refl

abbrev written_settings : List (TextKey × Text)
written_settings =
    (TextKey.host_key, codes "::1")
    ∷ (TextKey.log_file_key, codes "a.log")
    ∷ (TextKey.host_key, codes "127.0.0.1")
    ∷ []

abbrev three_lines : Files
three_lines path = some (file_of (with_names written_settings))

from_file-last_value_example :
    (c : ServerConfig) × (from_file three_lines (codes "server.conf") ≡ returned c)
    × (c.host ≡ codes "127.0.0.1")
    × (c.port ≡ 5555)
    × (c.database_port ≡ 5432)
    × (c.worker_threads ≡ pos 4)
    × (c.max_message_size ≡ 65536)
from_file-last_value_example =
    from_file-last_value three_lines (codes "server.conf") written_settings TextKey.host_key refl
      (ground arith)

abbrev wide_port : Environment
wide_port name = if name === codes "CC_SERVER_PORT" then some (codes "65537") else none

from_environment_and_file_port_example :
    OfReturned (HasPort 65537) (from_environment_and_file one_file wide_port (codes "server.conf"))
unfolding environment_value ◌===◌ stoul skip_spaces read_signed read_magnitude read_digits
from_environment_and_file_port_example =
    from_environment_and_file_port one_file wide_port (codes "server.conf") (codes "65537") 65537
      refl refl

from_environment_and_file_connection_example :
    OfReturned
      (λ config. database_connection_string one_file config ≡ codes "host=db")
      (from_environment_and_file one_file one_variable (codes "server.conf"))
unfolding environment_value ◌===◌
from_environment_and_file_connection_example =
    from_environment_and_file_connection one_file one_variable (codes "server.conf")
      (codes "host=db") refl (unfold is_empty in refl)

config_path_from_args_example :
    (config_path_from_args ([] ++ codes "-v" ∷ []) ≡ default_path)
    × (config_path_from_args ([] ++ codes "-c" ∷ codes "my.conf" ∷ codes "-v" ∷ [])
        ≡ codes "my.conf")
unfolding ◌===◌
config_path_from_args_example =
    config_path_from_args_lem (codes "-c") (codes "my.conf") [] (codes "-v" ∷ []) tt refl (refl, tt)
