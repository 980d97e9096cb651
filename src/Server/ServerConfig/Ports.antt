-- ===== src/Server/ServerConfig/Ports.antt =====
-- The port of the environment: it is kept as it is read, or refused.
use console_calculator.Prelude.{
  ℕ, ◌≡◌, ◌≤◌, refl, some, Option-cases, List, [], ◌∷◌, ◌++◌, arith, All, inl, inr, Bool-cases, ltb,
}
use console_calculator.Text.{Text, codes}
use console_calculator.Text.Number.{stoi, stoul, stoull, read_signed, skip_spaces}
use console_calculator.Support.{returned}
use console_calculator.Server.ServerConfig.{ServerConfig, Files, Environment, environment_value}
use console_calculator.Server.ServerConfig.Strings.{parse_uint16}
use console_calculator.Server.ServerConfig.Load.{
  Setter, override, set_port, set_database_port, set_worker_threads, set_max_message_size,
  override_all, from_file, from_environment_and_file,
}
use console_calculator.Server.ServerConfig.Bounds.{
  OfReturned, IsBounded, AllKeep, chain-OfReturned, overrides-AllKeep, override-Keeps,
  from_file-IsBounded, parse_uint16_bound, in_int-InInt, in_unsigned_bound,
}

-- All the settings of a list keep a property of the configuration.
abbrev AllLeave : (ServerConfig → Type 0) → List (Text × Setter) → Type 0
AllLeave Q = All (λ setting.
    (config : ServerConfig) (value : Text) → Q config → OfReturned Q (setting.1 config value))

override_all-kept :
    (environment : Environment) (settings : List (Text × Setter)) (Q : ServerConfig → Type 0)
    (config : ServerConfig)
    → AllLeave Q settings
    → Q config
    → OfReturned Q (override_all environment settings config)
unfolding override_all
override_all-kept environment [] Q config leave q = q
override_all-kept environment ((name, set) ∷ rest) Q config leave q =
    let first : OfReturned Q (override environment name set config) =
      elim (Option-cases (environment_value environment name)) [
        | inl n ↦ rw (n, override) q
        | inr (value, e) ↦ rw (e, override) (leave.0 config value q)
      ] in
    chain-OfReturned Q Q (override environment name set config) _ first
      (λ config' q'. override_all-kept environment rest Q config' leave.1 q')

-- What a setting establishes, and those behind it keep, holds at the end.
override_all-middle :
    (environment : Environment) (before after : List (Text × Setter)) (name : Text) (set : Setter)
    (Q : ServerConfig → Type 0) (config : ServerConfig)
    → AllKeep (before ++ (name, set) ∷ after)
    → AllLeave Q after
    → IsBounded config
    → ((config' : ServerConfig) → OfReturned Q (override environment name set config'))
    → OfReturned Q (override_all environment (before ++ (name, set) ∷ after) config)
unfolding override_all
override_all-middle environment [] after name set Q config keeps leave h establishes =
    chain-OfReturned Q Q (override environment name set config) _ (establishes config)
      (λ config' q. override_all-kept environment after Q config' leave q)
override_all-middle environment ((n, s) ∷ before) after name set Q config keeps leave h
      establishes =
    chain-OfReturned IsBounded Q (override environment n s config) _
      (override-Keeps environment n s config keeps.0 h)
      (λ config' k.
        override_all-middle environment before after name set Q config' keeps.1 leave k establishes)

-- The port is the number that was read, and it fits 16 bits.
abbrev pub HasPort : ℕ → ServerConfig → Type 0
HasPort n config = (config.port ≡ n) × (n ≤ 65535)

set_port-HasPort :
    (name value : Text) (n : ℕ) (config : ServerConfig)
    → stoul value ≡ returned n
    → OfReturned (HasPort n) (set_port name config value)
unfolding parse_uint16
set_port-HasPort name value n config read = elim (Bool-cases (ltb 65535 n)) [
  | inl wide ↦ rw (read, wide) tt
  | inr fits ↦ rw (read, fits) (refl, ground (arith, fits))
]

behind_port-AllLeave :
    (n : ℕ)
    → AllLeave (HasPort n) (
        (codes "CC_SERVER_WORKER_THREADS", set_worker_threads)
        ∷ (codes "CC_SERVER_MAX_MESSAGE_SIZE", set_max_message_size)
        ∷ [])
unfolding stoi stoull
behind_port-AllLeave n = (
  λ config value q.
      chain-OfReturned _ (HasPort n) (stoi value) _ (in_int-InInt (read_signed (skip_spaces value)))
        (λ m k. q),
  (
    λ config value q.
        chain-OfReturned _ (HasPort n) (stoull value) _
          (in_unsigned_bound (codes "stoull") (read_signed (skip_spaces value))) (λ m k. q),
    tt,
  ),
)

database_port-Leaves :
    (n : ℕ) (config : ServerConfig) (value : Text)
    → HasPort n config
    → OfReturned (HasPort n) (set_database_port (codes "CC_DB_PORT") config value)
database_port-Leaves n config value q =
    chain-OfReturned _ (HasPort n) (parse_uint16 value (codes "CC_DB_PORT")) _
      (parse_uint16_bound value (codes "CC_DB_PORT")) (λ m k. q)

-- Where CC_SERVER_PORT holds a number `n` after the rules of stoul: loading ends with an exception, or
-- `n` fits 16 bits and is the port, whatever else the file and the environment hold. So a number that
-- does not fit is refused, not cut.
pub from_environment_and_file_port :
    (files : Files) (environment : Environment) (path value : Text) (n : ℕ)
    → environment_value environment (codes "CC_SERVER_PORT") ≡ some value
    → stoul value ≡ returned n
    → OfReturned (HasPort n) (from_environment_and_file files environment path)
unfolding from_environment_and_file
from_environment_and_file_port files environment path value n given read =
    let same : (config : ServerConfig) (text : Text) → HasPort n config → HasPort n config =
      λ config text q. q in
    let (threads, (size, _)) = behind_port-AllLeave n in
    chain-OfReturned IsBounded (HasPort n) (from_file files path) _ (from_file-IsBounded files path)
      (λ config h.
        override_all-middle environment
          ((codes "CC_SERVER_HOST", λ c v. returned (record c { host = v })) ∷ []) _
          (codes "CC_SERVER_PORT") (set_port (codes "CC_SERVER_PORT")) (HasPort n) config
          overrides-AllKeep
          (
            threads,
            (
              size,
              (same, (same, (database_port-Leaves n, (same, (same, (same, (same, (same, tt)))))))),
            ),
          )
          h
          (λ config'.
            rw (given, override) (set_port-HasPort (codes "CC_SERVER_PORT") value n config' read)))
