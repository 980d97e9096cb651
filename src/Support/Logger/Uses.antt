-- ===== src/Support/Logger/Uses.antt =====
-- Any uses of the logger, in their order.
use console_calculator.Prelude.{◌≡◌, refl, some, List, [], ◌∷◌}
use console_calculator.Text.{Text}
use console_calculator.Support.{returned}
use console_calculator.Support.Exec.{Exec, ◌>>◌, pure}
use console_calculator.Support.Logger.{Level, Spdlog, Target, Logger, init, log, write_line}

-- The calls between two shutdowns.
pub data Use : Type 0 where
  inits : Text → Text → Use
  logs : Level → Text → Use

module _ (S : Spdlog) where
  unfoldable pub use_logger : Use → Exec (Logger S) (Unit {0})
  use_logger (inits path name) = init S path name
  use_logger (logs level message) = log S level message

  unfoldable pub use_all : List Use → Exec (Logger S) (Unit {0})
  use_all [] = pure tt
  use_all (u ∷ uses) = use_logger u >> use_all uses

  -- The lines of the uses in one file.
  abbrev pub write_all : Target → List Use → S.World → S.World
  write_all target [] w = w
  write_all target (inits path name ∷ uses) w = write_all target uses w
  write_all target (logs level message ∷ uses) w =
      write_all target uses (S.write target.file target.name level message w)

  -- A logger that is there writes the lines of any uses in their order into its one file, whatever files
  -- later calls of `init` name, and throws nothing.
  pub use_all-write_all :
      (uses : List Use) (target : Target) (w : S.World)
      → use_all uses (record { logger = some target; world = w })
        ≡ (returned tt, record { logger = some target; world = write_all target uses w })
  unfolding use_all use_logger init log write_line
  use_all-write_all [] target w = refl
  use_all-write_all (inits path name ∷ uses) target w = use_all-write_all uses target w
  use_all-write_all (logs level message ∷ uses) target w =
      use_all-write_all uses target (S.write target.file target.name level message w)
