-- ===== src/Server/ServerConfig/Bounds.antt =====
-- The numbers of a loaded configuration.
use console_calculator.Prelude.{
  ℕ, ◌≤◌, Bool, Option, none, some, List, [], ◌∷◌, arith, if◌then◌else◌, Option-cases, inl, inr,
  All,
}
use console_calculator.Prelude.Int.{InInt}
use console_calculator.Text.{Text, codes}
use console_calculator.Text.Number.{
  stoi, stoul, stoull, in_int, in_unsigned, read_signed, skip_spaces,
}
use console_calculator.Support.{Result, returned, thrown, undefined}
use console_calculator.Support.Exec.{chain}
use console_calculator.Server.ServerConfig.{
  ServerConfig, initial_config, Files, Environment, environment_value,
}
use console_calculator.Server.ServerConfig.Strings.{parse_uint16, trim, unquote}
use console_calculator.Server.ServerConfig.Load.{
  Setter, apply_key_value, apply_line, apply_lines, lines, from_file, override, overrides,
  override_all, split_at_separator, erase_comment, set_port, set_database_port, set_worker_threads,
  set_max_message_size,
}

-- The predicate holds of what is returned; an exception leaves nothing to ask.
abbrev pub OfReturned : {A : Type 0} → (A → Type 0) → Result A → Type 0
OfReturned P (returned a) = P a
OfReturned P (thrown e) = Unit {0}
OfReturned P undefined = ⊥

pub chain-OfReturned :
    {A B : Type 0} (P : A → Type 0) (Q : B → Type 0) (r : Result A) (f : A → Result B)
    → OfReturned P r
    → ((a : A) → P a → OfReturned Q (f a))
    → OfReturned Q (chain r f)
chain-OfReturned P Q (returned a) f h k = k a h
chain-OfReturned P Q (thrown e) f h k = h
chain-OfReturned P Q undefined f h k = h

abbrev pub IsBounded : ServerConfig → Type 0
IsBounded config =
    (config.port ≤ 65535)
    × (config.database_port ≤ 65535)
    × InInt config.worker_threads
    × (config.max_message_size ≤ 18446744073709551615)

pub in_int-InInt : (m : Bool × Option ℕ) → OfReturned InInt (in_int m)
in_int-InInt (minus, none) = tt
in_int-InInt (minus, some n) = ground arith

pub in_unsigned_bound :
    (name : Text) (m : Bool × Option ℕ)
    → OfReturned (λ n. n ≤ 18446744073709551615) (in_unsigned name m)
in_unsigned_bound name (minus, none) = tt
in_unsigned_bound name (minus, some n) = ground arith

pub parse_uint16_bound : (value name : Text) → OfReturned (λ n. n ≤ 65535) (parse_uint16 value name)
unfolding parse_uint16 stoul
parse_uint16_bound value name =
    chain-OfReturned _ _ (stoul value) _
      (in_unsigned_bound (codes "stoul") (read_signed (skip_spaces value))) (λ n h. ground arith)

-- A setter keeps the bounds.
abbrev pub Keeps : Setter → Type 0
Keeps set =
    (config : ServerConfig) (value : Text)
    → IsBounded config
    → OfReturned IsBounded (set config value)

set_port-Keeps : (name : Text) → Keeps (set_port name)
set_port-Keeps name config value (h0, h1, h2, h3) =
    chain-OfReturned _ IsBounded (parse_uint16 value name) _ (parse_uint16_bound value name)
      (λ n k. (k, h1, h2, h3))

set_database_port-Keeps : (name : Text) → Keeps (set_database_port name)
set_database_port-Keeps name config value (h0, h1, h2, h3) =
    chain-OfReturned _ IsBounded (parse_uint16 value name) _ (parse_uint16_bound value name)
      (λ n k. (h0, k, h2, h3))

set_worker_threads-Keeps : Keeps set_worker_threads
unfolding stoi
set_worker_threads-Keeps config value (h0, h1, h2, h3) =
    chain-OfReturned _ IsBounded (stoi value) _ (in_int-InInt (read_signed (skip_spaces value)))
      (λ n k. (h0, h1, k, h3))

set_max_message_size-Keeps : Keeps set_max_message_size
unfolding stoull
set_max_message_size-Keeps config value (h0, h1, h2, h3) =
    chain-OfReturned _ IsBounded (stoull value) _
      (in_unsigned_bound (codes "stoull") (read_signed (skip_spaces value)))
      (λ n k. (h0, h1, h2, k))

branch :
    (P : ServerConfig → Type 0) (b : Bool) (x y : Result ServerConfig)
    → OfReturned P x
    → OfReturned P y
    → OfReturned P (if b then x else y)
branch P b x y h k = ground arith

apply_key_value-Keeps :
    (config : ServerConfig) (key value : Text)
    → IsBounded config
    → OfReturned IsBounded (apply_key_value config key value)
unfolding apply_key_value
apply_key_value-Keeps config key value h = ground (
  arith,
  set_port-Keeps (codes "port") config value h,
  set_worker_threads-Keeps config value h,
  set_max_message_size-Keeps config value h,
  set_database_port-Keeps (codes "database_port") config value h,
)

apply_line-Keeps :
    (config : ServerConfig) (line : Text)
    → IsBounded config
    → OfReturned IsBounded (apply_line config line)
unfolding apply_line
apply_line-Keeps config line h =
    elim (Option-cases (split_at_separator (trim (erase_comment line)))) [
      | inl n ↦ rw (n, apply_line) h
      | inr ((before, behind), e) ↦
          rw (e, apply_line) (apply_key_value-Keeps config (trim before) (unquote behind) h)
    ]

initial_bounds : IsBounded initial_config
initial_bounds = omega arith

apply_lines-Keeps :
    (config : ServerConfig) (rest : List Text)
    → IsBounded config
    → OfReturned IsBounded (apply_lines config rest)
unfolding apply_lines
apply_lines-Keeps config [] h = h
apply_lines-Keeps config (line ∷ rest) h =
    chain-OfReturned IsBounded IsBounded (apply_line config line) _ (apply_line-Keeps config line h)
      (λ config' k. apply_lines-Keeps config' rest k)

pub from_file-IsBounded :
    (files : Files) (path : Text) → OfReturned IsBounded (from_file files path)
unfolding from_file
from_file-IsBounded files path = elim (Option-cases (files path)) [
  | inl n ↦ rw (n, from_file) initial_bounds
  | inr (content, e) ↦
      rw (e, from_file) (apply_lines-Keeps initial_config (lines content) initial_bounds)
]

-- All the settings of a list keep the bounds.
abbrev pub AllKeep : List (Text × Setter) → Type 0
AllKeep settings = All (λ setting. Keeps (setting.1)) settings

pub override-Keeps :
    (environment : Environment) (name : Text) (set : Setter) (config : ServerConfig)
    → Keeps set
    → IsBounded config
    → OfReturned IsBounded (override environment name set config)
override-Keeps environment name set config keeps h =
    elim (Option-cases (environment_value environment name)) [
      | inl n ↦ rw (n, override) h
      | inr (value, e) ↦ rw (e, override) (keeps config value h)
    ]

override_all-Keeps :
    (environment : Environment) (settings : List (Text × Setter)) (config : ServerConfig)
    → AllKeep settings
    → IsBounded config
    → OfReturned IsBounded (override_all environment settings config)
unfolding override_all
override_all-Keeps environment [] config keeps h = h
override_all-Keeps environment ((name, set) ∷ rest) config keeps h =
    chain-OfReturned IsBounded IsBounded (override environment name set config) _
      (override-Keeps environment name set config (keeps.0) h)
      (λ config' k. override_all-Keeps environment rest config' (keeps.1) k)

pub overrides-AllKeep : AllKeep overrides
overrides-AllKeep =
    let same : (config : ServerConfig) (value : Text) → IsBounded config → IsBounded config =
      λ config value h. h in
    (
      same,
      (
        set_port-Keeps (codes "CC_SERVER_PORT"),
        (
          set_worker_threads-Keeps,
          (
            set_max_message_size-Keeps,
            (
              same,
              (
                same,
                (
                  set_database_port-Keeps (codes "CC_DB_PORT"),
                  (same, (same, (same, (same, (same, tt))))),
                ),
              ),
            ),
          ),
        ),
      ),
    )
