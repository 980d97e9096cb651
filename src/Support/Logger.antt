-- ===== src/Support/Logger.antt =====
-- support/src/logger.cpp and support/include/logger.h: the one logger of the process, over spdlog and the
-- file system as parameters.
pub mod Uses
pub mod Paths
use console_calculator.Prelude.{
  Bool, true, false, Option, none, some, List, [], ◌∷◌, ◌==◌, ◌&&◌, not, if◌then◌else◌,
}
use console_calculator.Text.{Text, codes, is_empty}
use console_calculator.Support.{returned, undefined}
use console_calculator.Support.Exec.{Exec, ◌>>◌}

pub data Level : Type 0 where
  trace debug info warn error critical : Level

-- What the logger calls. The error code of `create_directories` is dropped; the file sink, which starts
-- its file anew, throws where it cannot open it; writing a line does not throw.
pub record Spdlog : Type 1 where
  pub World : Type 0
  pub create_directories : Text → World → World
  pub open_file : Text → Exec World (Unit {0})
  pub write : Text → Text → Level → Text → World → World
  pub shutdown : World → World

-- A path up to its last slash, that one with it; empty where there is none.
unfoldable pub up_to_slash : Text → Text
up_to_slash [] = []
up_to_slash (c ∷ path) =
    let rest = up_to_slash path in
    if is_empty rest then (if c == b'/' then c ∷ [] else []) else c ∷ rest

-- Without the slashes at the end, but for one at the beginning.
unfoldable pub drop_slashes : Text → Text
drop_slashes [] = []
drop_slashes (c ∷ path) =
    let rest = drop_slashes path in
    elim rest [
      | [] ↦ c ∷ []
      | d ∷ more ↦ if d == b'/' && is_empty more then c ∷ [] else c ∷ d ∷ more
    ]

-- `parent_path` of a POSIX path.
unfoldable pub parent_path : Text → Text
parent_path path = drop_slashes (up_to_slash path)

abbrev pub default_logger_name : Text
default_logger_name = codes "console-calculator"

abbrev pub default_file_path : Text
default_file_path = codes "logs/console-calculator.log"

-- The file and the name of a logger.
pub record Target : Type 0 where
  pub file : Text
  pub name : Text

module _ (S : Spdlog) where
  -- `Logger::Impl`; the logger is null until it is made.
  pub record Logger : Type 0 where
    pub logger : Option Target
    pub world : S.World

  unfoldable pub make_directories : Text → S.World → S.World
  make_directories path w =
      if is_empty (parent_path path) then w else S.create_directories (parent_path path) w

  -- `init` on a null logger. The logger stays null where a sink throws.
  unfoldable pub make_logger : Text → Text → Exec Logger (Unit {0})
  make_logger path name l =
      let (r, w) = S.open_file path (make_directories path l.world) in
      (
        r,
        record {
          logger = elim r [ returned u ↦ some (record { file = path; name = name }) | _ ↦ none ];
          world = w;
        },
      )

  unfoldable pub init : Text → Text → Exec Logger (Unit {0})
  init path name l = elim l.logger [
    | some target ↦ (returned tt, l)
    | none ↦ make_logger path name l
  ]

  unfoldable pub is_initialized : Logger → Bool
  is_initialized l = elim l.logger [ some target ↦ true | none ↦ false ]

  unfoldable pub shutdown : Logger → Logger
  shutdown l = record { logger = none; world = S.shutdown l.world }

  -- `*logger_`, a null pointer behind a failed `init`, which is not reached.
  unfoldable pub write_line : Level → Text → Exec Logger (Unit {0})
  write_line level message l = elim l.logger [
    | some target ↦
        (returned tt, record l { world = S.write target.file target.name level message l.world })
    | none ↦ (undefined, l)
  ]

  -- `trace`, `debug`, `info`, `warn`, `error` and `critical`: a null logger is made first, with the
  -- default file.
  unfoldable pub log : Level → Text → Exec Logger (Unit {0})
  log level message = init default_file_path default_logger_name >> write_line level message
