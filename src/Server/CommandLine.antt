-- ===== src/Server/CommandLine.antt =====
-- server/main.cpp: the path of the configuration file.
use console_calculator.Prelude.{
  ◌≡◌, refl, Bool, true, false, ◌||◌, List, [], ◌∷◌, ◌++◌, All, All-append, if◌then◌else◌,
}
use console_calculator.Text.{Text, codes, ◌===◌}

abbrev pub is_config_flag : Text → Bool
is_config_flag argument = argument === codes "--config" || argument === codes "-c"

-- The loop over the arguments behind the name of the program, with the path so far. A flag takes the
-- next argument as its path, whatever that is; without a next argument it is passed over.
unfoldable pub path_from : Text → List Text → Text
path_from path [] = path
path_from path (argument ∷ []) = path
path_from path (argument ∷ next ∷ rest) =
    let skipped = path_from path (next ∷ rest) in
    let taken = path_from next rest in if is_config_flag argument then taken else skipped

abbrev pub default_path : Text
default_path = codes "/etc/console-calculator/server.conf"

unfoldable pub config_path_from_args : List Text → Text
config_path_from_args arguments = path_from default_path arguments

abbrev pub HasNoFlag : List Text → Type 0
HasNoFlag = All (λ argument. is_config_flag argument ≡ false)

path_from-HasNoFlag :
    (path : Text) (arguments : List Text) → HasNoFlag arguments → path_from path arguments ≡ path
unfolding path_from
path_from-HasNoFlag path [] h = refl
path_from-HasNoFlag path (a ∷ []) h = refl
path_from-HasNoFlag path (a ∷ b ∷ rest) h = rw (h.0) (path_from-HasNoFlag path (b ∷ rest) (h.1))

path_from_flag :
    (path flag given : Text) (before behind : List Text)
    → HasNoFlag before
    → is_config_flag flag ≡ true
    → HasNoFlag behind
    → path_from path (before ++ flag ∷ given ∷ behind) ≡ given
unfolding path_from
path_from_flag path flag given [] behind h f k = rw f (path_from-HasNoFlag given behind k)
path_from_flag path flag given (a ∷ []) behind h f k =
    rw (h.0, f) (path_from-HasNoFlag given behind k)
path_from_flag path flag given (a ∷ b ∷ before) behind h f k =
    rw (h.0) (path_from_flag path flag given (b ∷ before) behind (h.1) f k)

-- Without a flag the path is the default; with one flag and an argument behind it, that argument,
-- wherever the two stand and whatever it is.
pub config_path_from_args_lem :
    (flag given : Text) (before behind : List Text)
    → HasNoFlag before
    → is_config_flag flag ≡ true
    → HasNoFlag behind
    → (config_path_from_args (before ++ behind) ≡ default_path)
      × (config_path_from_args (before ++ flag ∷ given ∷ behind) ≡ given)
unfolding config_path_from_args
config_path_from_args_lem flag given before behind h f k = (
  path_from-HasNoFlag default_path (before ++ behind) (All-append _ before behind h k),
  path_from_flag default_path flag given before behind h f k,
)
