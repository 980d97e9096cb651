-- ===== src/Server/ServerConfig/Quoted.antt =====
-- Files of lines `key="value"`.
use console_calculator.Prelude.{
  ◌≡◌, ◌≢◌, refl, sym, ap, ◌∙◌, some, List, [], ◌∷◌, ◌++◌, arith, All, append_assoc,
}
use console_calculator.Text.{Text}
use console_calculator.Support.{Result, returned, thrown, undefined}
use console_calculator.Support.Exec.{chain}
use console_calculator.Server.ServerConfig.{ServerConfig, initial_config, Files}
use console_calculator.Server.ServerConfig.Strings.{trim}
use console_calculator.Server.ServerConfig.Strings.Trim.{
  IsSolid, trim_solid, trim-All, unquote_quoted,
}
use console_calculator.Server.ServerConfig.Load.{
  apply_key_value, apply_line, apply_lines, lines, erase_comment, split_at_separator, from_file,
}

-- A key has no blank, no `#` and no `=`, a value no `#` and no line feed.
abbrev pub IsKey : Text → Type 0
IsKey [] = ⊥
IsKey (c ∷ s) = All (λ d. IsSolid d × (d ≢ b'#') × (d ≢ b'=')) (c ∷ s)

abbrev pub IsValue : Text → Type 0
IsValue = All (λ d. (d ≢ b'#') × (d ≢ 10))

abbrev pub written : Text × Text → Text
written (k, v) = k ++ (b'=' ∷ 34 ∷ v ++ 34 ∷ [])

erase_comment_value : (v : Text) → IsValue v → erase_comment (v ++ 34 ∷ []) ≡ v ++ 34 ∷ []
unfolding erase_comment
erase_comment_value [] h = refl
erase_comment_value (c ∷ v) h = ground (arith, erase_comment_value v (h.1))

erase_comment_quoted :
    (v : Text) → IsValue v → erase_comment (b'=' ∷ 34 ∷ v ++ 34 ∷ []) ≡ b'=' ∷ 34 ∷ v ++ 34 ∷ []
unfolding erase_comment
erase_comment_quoted v h = ap (λ s. b'=' ∷ 34 ∷ s) (erase_comment_value v h)

erase_comment_key :
    (k rest : Text)
    → All (λ d. IsSolid d × (d ≢ b'#') × (d ≢ b'=')) k
    → erase_comment rest ≡ rest
    → erase_comment (k ++ rest) ≡ k ++ rest
unfolding erase_comment
erase_comment_key [] rest h e = e
erase_comment_key (c ∷ k) rest h e = ground (arith, erase_comment_key k rest (h.1) e)

split_written :
    (k rest : Text)
    → All (λ d. IsSolid d × (d ≢ b'#') × (d ≢ b'=')) k
    → split_at_separator (k ++ b'=' ∷ rest) ≡ some (k, rest)
unfolding split_at_separator
split_written [] rest h = refl
split_written (c ∷ k) rest h = ground (arith, split_written k rest (h.1))

IsSolid-All : (k : Text) → All (λ d. IsSolid d × (d ≢ b'#') × (d ≢ b'=')) k → All IsSolid k
IsSolid-All [] h = tt
IsSolid-All (c ∷ k) h = (h.0.0, IsSolid-All k (h.1))

apply_written :
    (config : ServerConfig) (k v : Text)
    → IsKey k
    → IsValue v
    → apply_line config (written (k, v)) ≡ apply_key_value config k v
unfolding apply_line
apply_written config [] v hk hv = absurd hk
apply_written config (c ∷ k) v hk hv =
    let rest = b'=' ∷ 34 ∷ v in
    let uncommented : erase_comment (written (c ∷ k, v)) ≡ written (c ∷ k, v) =
      erase_comment_key (c ∷ k) (rest ++ 34 ∷ []) hk (erase_comment_quoted v hv) in
    let regrouped : c ∷ (k ++ rest) ++ 34 ∷ [] ≡ written (c ∷ k, v) =
      ap (λ s. c ∷ s) (append_assoc k rest (34 ∷ [])) in
    let trimmed : trim (written (c ∷ k, v)) ≡ written (c ∷ k, v) =
      ap trim (sym regrouped) ∙ trim_solid c 34 (k ++ rest) (hk.0.0) refl ∙ regrouped in
    let parts = split_written (c ∷ k) (34 ∷ v ++ 34 ∷ []) hk in
    let found : split_at_separator (trim (erase_comment (written (c ∷ k, v))))
        ≡ some (c ∷ k, 34 ∷ v ++ 34 ∷ []) =
      ap (λ s. split_at_separator (trim s)) uncommented ∙ ap split_at_separator trimmed ∙ parts in
    rw (found, apply_line, trim-All (c ∷ k) (IsSolid-All (c ∷ k) hk), unquote_quoted v)

-- The text of a file with these settings, and what they do.
abbrev pub file_of : List (Text × Text) → Text
file_of [] = []
file_of (setting ∷ rest) = written setting ++ 10 ∷ file_of rest

abbrev pub apply_all : ServerConfig → List (Text × Text) → Result ServerConfig
apply_all config [] = returned config
apply_all config ((k, v) ∷ rest) =
    chain (apply_key_value config k v) (λ config'. apply_all config' rest)

abbrev pub AreSettings : List (Text × Text) → Type 0
AreSettings =
    All (λ setting. IsKey (setting.0) × All (λ d. d ≢ 10) (setting.0) × IsValue (setting.1))

lines_line : (l rest : Text) → All (λ d. d ≢ 10) l → lines (l ++ 10 ∷ rest) ≡ l ∷ lines rest
unfolding lines
lines_line [] rest h = refl
lines_line (c ∷ l) rest h = ground (arith, lines_line l rest (h.1))

value_line : (v : Text) → IsValue v → All (λ d. d ≢ 10) (v ++ 34 ∷ [])
value_line [] h = (ground arith, tt)
value_line (c ∷ v) h = (h.0.1, value_line v (h.1))

one_line : (k v : Text) → All (λ d. d ≢ 10) k → IsValue v → All (λ d. d ≢ 10) (written (k, v))
one_line [] v hk hv = (ground arith, (ground arith, value_line v hv))
one_line (c ∷ k) v hk hv = (hk.0, one_line k v (hk.1) hv)

chain_cong :
    (r : Result ServerConfig) (f g : ServerConfig → Result ServerConfig)
    → ((config : ServerConfig) → f config ≡ g config)
    → chain r f ≡ chain r g
chain_cong (returned config) f g h = h config
chain_cong (thrown e) f g h = refl
chain_cong undefined f g h = refl

apply_file :
    (config : ServerConfig) (settings : List (Text × Text))
    → AreSettings settings
    → apply_lines config (lines (file_of settings)) ≡ apply_all config settings
unfolding apply_lines lines
apply_file config [] h = refl
apply_file config ((k, v) ∷ rest) h =
    let (hk, hl, hv) = h.0 in
    let same = apply_written config k v hk hv in
    let more : (config' : ServerConfig)
        → apply_lines config' (lines (file_of rest)) ≡ apply_all config' rest =
      λ config'. apply_file config' rest (h.1) in
    rw (lines_line (written (k, v)) (file_of rest) (one_line k v hl hv), same)
      (chain_cong (apply_key_value config k v) _ _ more)

-- A file of lines `key="value"`, whose keys have no blank, `#` or `=` and whose values have no `#` and no
-- line feed: its load is that of the settings one after another, each as apply_key_value takes it.
pub from_file-file_of :
    (files : Files) (path : Text) (settings : List (Text × Text))
    → files path ≡ some (file_of settings)
    → AreSettings settings
    → from_file files path ≡ apply_all initial_config settings
unfolding from_file
from_file-file_of files path settings e h = rw (e, from_file) (apply_file initial_config settings h)
