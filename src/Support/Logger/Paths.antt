-- ===== src/Support/Logger/Paths.antt =====
-- The directory of a log file.
use console_calculator.Prelude.{◌≡◌, ◌≢◌, refl, [], ◌∷◌, ◌++◌, All, arith}
use console_calculator.Text.{Text, is_empty}
use console_calculator.Support.Logger.{up_to_slash, drop_slashes, parent_path}

abbrev pub HasNoSlash : Text → Type 0
HasNoSlash = All (λ c. c ≢ b'/')

-- A path that does not end in a slash.
abbrev pub EndsPlain : Text → Type 0
EndsPlain [] = ⊥
EndsPlain (c ∷ []) = c ≢ b'/'
EndsPlain (c ∷ d ∷ path) = EndsPlain (d ∷ path)

up_to_slash-HasNoSlash : (file : Text) → HasNoSlash file → up_to_slash file ≡ []
unfolding up_to_slash is_empty
up_to_slash-HasNoSlash [] h = refl
up_to_slash-HasNoSlash (c ∷ file) h = rw (up_to_slash-HasNoSlash file h.1) (ground (arith, h.0))

up_to_slash-append :
    (directory file : Text)
    → HasNoSlash file
    → up_to_slash (directory ++ b'/' ∷ file) ≡ directory ++ b'/' ∷ []
unfolding up_to_slash is_empty
up_to_slash-append [] file h = rw (up_to_slash-HasNoSlash file h)
up_to_slash-append (c ∷ []) file h = rw (up_to_slash-append [] file h)
up_to_slash-append (c ∷ d ∷ directory) file h = rw (up_to_slash-append (d ∷ directory) file h)

drop_slashes-EndsPlain :
    (directory : Text) → EndsPlain directory → drop_slashes (directory ++ b'/' ∷ []) ≡ directory
unfolding drop_slashes is_empty
drop_slashes-EndsPlain [] h = absurd h
drop_slashes-EndsPlain (c ∷ []) h = refl
drop_slashes-EndsPlain (c ∷ d ∷ []) h = rw (drop_slashes-EndsPlain (d ∷ []) h) (ground (arith, h))
drop_slashes-EndsPlain (c ∷ d ∷ e ∷ directory) h =
    rw (drop_slashes-EndsPlain (d ∷ e ∷ directory) h) (ground arith)

-- The name of a file in a directory: the directory is what `init` creates, where it is not empty and does
-- not end in a slash. A name without a slash has no directory.
pub parent_path_lem :
    (directory file : Text)
    → HasNoSlash file
    → EndsPlain directory
    → (parent_path (directory ++ b'/' ∷ file) ≡ directory) × (parent_path file ≡ [])
unfolding parent_path drop_slashes
parent_path_lem directory file h k = (
  rw (up_to_slash-append directory file h) (drop_slashes-EndsPlain directory k),
  rw (up_to_slash-HasNoSlash file h),
)
