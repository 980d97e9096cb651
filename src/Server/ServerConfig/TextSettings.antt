-- ===== src/Server/ServerConfig/TextSettings.antt =====
-- The settings of a file whose values are texts, told apart from the code: which setting each key names,
-- and which value of a key counts.
use console_calculator.Prelude.{
  ℕ, ◌≡◌, refl, ◌∙◌, some, List, [], ◌∷◌, ◌==◌, arith, All, if◌then◌else◌,
}
use console_calculator.Prelude.Int.{pos}
use console_calculator.Text.{Text, codes, ◌===◌}
use console_calculator.Support.{Result, returned}
use console_calculator.Server.ServerConfig.{ServerConfig, initial_config, Files}
use console_calculator.Server.ServerConfig.Load.{apply_key_value, from_file}
use console_calculator.Server.ServerConfig.Quoted.{
  IsValue, AreSettings, file_of, apply_all, from_file-file_of,
}

pub data TextKey : Type 0 where
  host_key log_file_key database_host_key database_name_key database_user_key database_password_key
        database_password_file_key database_connection_string_key :
      TextKey

abbrev pub key_name : TextKey → Text
key_name host_key = codes "host"
key_name log_file_key = codes "log_file"
key_name database_host_key = codes "database_host"
key_name database_name_key = codes "database_name"
key_name database_user_key = codes "database_user"
key_name database_password_key = codes "database_password"
key_name database_password_file_key = codes "database_password_file"
key_name database_connection_string_key = codes "database_connection_string"

-- The field of the configuration that a key stands for.
abbrev pub field : TextKey → ServerConfig → Text
field host_key config = config.host
field log_file_key config = config.log_file
field database_host_key config = config.database_host
field database_name_key config = config.database_name
field database_user_key config = config.database_user
field database_password_key config = config.database_password
field database_password_file_key config = config.database_password_file
field database_connection_string_key config = config.explicit_database_connection_string

abbrev number : TextKey → ℕ
number host_key = 0
number log_file_key = 1
number database_host_key = 2
number database_name_key = 3
number database_user_key = 4
number database_password_key = 5
number database_password_file_key = 6
number database_connection_string_key = 7

-- The last value that the settings give to a key, or what is there without them.
abbrev pub last_value : TextKey → List (TextKey × Text) → Text → Text
last_value k [] otherwise = otherwise
last_value k ((j, v) ∷ rest) otherwise =
    last_value k rest (if number j == number k then v else otherwise)

abbrev pub with_names : List (TextKey × Text) → List (Text × Text)
with_names [] = []
with_names ((k, v) ∷ rest) = (key_name k, v) ∷ with_names rest

abbrev pub HaveValues : List (TextKey × Text) → Type 0
HaveValues = All (λ setting. IsValue (setting.1))

with_names-AreSettings :
    (settings : List (TextKey × Text)) → HaveValues settings → AreSettings (with_names settings)
with_names-AreSettings [] h = tt
with_names-AreSettings ((host_key, v) ∷ rest) h =
    ((ground arith, ground arith, h.0), with_names-AreSettings rest h.1)
with_names-AreSettings ((_, v) ∷ rest) h =
    ((ground arith, ground arith, h.0), with_names-AreSettings rest h.1)

abbrev set : TextKey → Text → ServerConfig → ServerConfig
set host_key v config = record config { host = v }
set log_file_key v config = record config { log_file = v }
set database_host_key v config = record config { database_host = v }
set database_name_key v config = record config { database_name = v }
set database_user_key v config = record config { database_user = v }
set database_password_key v config = record config { database_password = v }
set database_password_file_key v config = record config { database_password_file = v }
set database_connection_string_key v config = record config {
  explicit_database_connection_string = v;
}

apply_key_value-set :
    (k : TextKey) (v : Text) (config : ServerConfig)
    → apply_key_value config (key_name k) v ≡ returned (set k v config)
unfolding apply_key_value ◌===◌
apply_key_value-set host_key v config = refl
apply_key_value-set _ v config = refl

field-set :
    (k j : TextKey) (v : Text) (config : ServerConfig)
    → field k (set j v config) ≡ (if number j == number k then v else field k config)
field-set k j v config = ground arith

abbrev SameNumbers : ServerConfig → ServerConfig → Type 0
SameNumbers c d =
    (c.port ≡ d.port)
    × (c.database_port ≡ d.database_port)
    × (c.worker_threads ≡ d.worker_threads)
    × (c.max_message_size ≡ d.max_message_size)

set-SameNumbers :
    (j : TextKey) (v : Text) (config : ServerConfig) → SameNumbers (set j v config) config
set-SameNumbers host_key v config = (refl, refl, refl, refl)
set-SameNumbers _ v config = (refl, refl, refl, refl)

abbrev Sets : TextKey → List (TextKey × Text) → ServerConfig → Result ServerConfig → Type 0
Sets k settings config r =
    (c : ServerConfig) × (r ≡ returned c)
    × (field k c ≡ last_value k settings (field k config))
    × SameNumbers c config

apply_all-Sets :
    (k : TextKey) (settings : List (TextKey × Text)) (config : ServerConfig)
    → Sets k settings config (apply_all config (with_names settings))
apply_all-Sets k [] config = (config, refl, refl, (refl, refl, refl, refl))
apply_all-Sets k ((j, v) ∷ rest) config =
    let (c, e, last, (p, q, r, s)) = apply_all-Sets k rest (set j v config) in
    let (p', q', r', s') = set-SameNumbers j v config in
    (
      c,
      rw (apply_key_value-set j v config) e,
      rw (← field-set k j v config) last,
      (p ∙ p', q ∙ q', r ∙ r', s ∙ s'),
    )

-- A file of lines `key="value"`, for any of the eight keys whose values are texts and for values without
-- `#` and line feed, loads: for each key the field that it names holds the last value that the file
-- gives to it, or the default if there is none, and the numbers are the defaults.
pub from_file-last_value :
    (files : Files) (path : Text) (settings : List (TextKey × Text)) (k : TextKey)
    → files path ≡ some (file_of (with_names settings))
    → HaveValues settings
    → (c : ServerConfig) × (from_file files path ≡ returned c)
      × (field k c ≡ last_value k settings (field k initial_config))
      × (c.port ≡ 5555)
      × (c.database_port ≡ 5432)
      × (c.worker_threads ≡ pos 4)
      × (c.max_message_size ≡ 65536)
from_file-last_value files path settings k e h =
    let (c, loads, last, (p, q, r, s)) = apply_all-Sets k settings initial_config in
    (
      c,
      from_file-file_of files path (with_names settings) e (with_names-AreSettings settings h)
          ∙ loads,
      last,
      p,
      q,
      r,
      s,
    )
