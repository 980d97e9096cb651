-- ===== src/Server/ServerConfig/Conninfo.antt =====
-- The connection string that the server builds tells the settings apart. The proof reads the settings
-- back out of it; the reader is a device of the proof and stands for no code.
use console_calculator.Prelude.{
  ℕ, ◌≡◌, ◌≢◌, ◌≤◌, All-append, refl, sym, ap, subst, ◌∙◌, Option, none, some, List, [], ◌∷◌, ◌++◌,
  ◌==◌, if◌then◌else◌, arith, append_assoc, append-nil, All,
}
use console_calculator.Prelude.Int.{pos}
use console_calculator.Text.{Text, codes, is_empty, to_string, digits, c_str}
use console_calculator.Text.Number.{stoi}
use console_calculator.Text.Number.RoundTrip.{stoi-to_string}
use console_calculator.Support.{returned}
use console_calculator.Text.Decimal.{IsDigit, digits-IsDigit, digits-cons}
use console_calculator.Server.ServerConfig.{
  ServerConfig, Files, database_connection_string, password_of, password_part,
}
use console_calculator.Server.ServerConfig.Strings.{is_blank, escape_all, libpq_escape_value}

-- Where the reader stands: between two settings, in a keyword, behind `=`, in a value in quotes, behind
-- a backslash there, or in a value without quotes. `broken` is a string that is not read.
pub data Place : Type 0 where
  between broken : Place
  keyword after_equals : Text → Place
  quoted escaped plain : Text → Text → Place

abbrev pub Settings : Type 0
Settings = List (Text × Text)

-- The setting that a character ends, and the next place.
abbrev pub read_char : Place → ℕ → Option (Text × Text) × Place
read_char between c = (none, if is_blank c then between else keyword (c ∷ []))
read_char broken c = (none, broken)
read_char (keyword k) c = (
  none,
  if c == b'=' then after_equals k else if is_blank c then broken else keyword (k ++ c ∷ []),
)
read_char (after_equals k) c = (
  none,
  if c == 39
      then quoted k []
      else if c == 92
      then broken
      else if is_blank c
      then broken
      else plain k (c ∷ []),
)
read_char (quoted k v) c =
    if c == 39
    then (some (k, v), between)
    else (none, if c == 92 then escaped k v else quoted k (v ++ c ∷ []))
read_char (escaped k v) c = (none, quoted k (v ++ c ∷ []))
read_char (plain k v) c =
    if is_blank c
    then (some (k, v), between)
    else (none, if c == 92 then broken else plain k (v ++ c ∷ []))

abbrev pub read_end : Place → Option Settings
read_end between = some []
read_end (plain k v) = some ((k, v) ∷ [])
read_end _ = none

abbrev pub emit : Option (Text × Text) → Option Settings → Option Settings
emit none settings = settings
emit (some setting) none = none
emit (some setting) (some settings) = some (setting ∷ settings)

unfoldable pub read_settings : Place → Text → Option Settings
read_settings place [] = read_end place
read_settings place (c ∷ s) =
    let (ended, next) = read_char place c in emit ended (read_settings next s)

read_escaped :
    (k v w rest : Text)
    → read_settings (quoted k v) (escape_all w ++ 39 ∷ rest)
      ≡ emit (some (k, v ++ w)) (read_settings between rest)
unfolding read_settings escape_all
read_escaped k v [] rest = rw append-nil
read_escaped k v (c ∷ w) rest =
    let more : read_settings (quoted k (v ++ c ∷ [])) (escape_all w ++ 39 ∷ rest)
        ≡ emit (some (k, v ++ c ∷ w)) (read_settings between rest) =
      rw (read_escaped k (v ++ c ∷ []) w rest, append_assoc) in
    ground (arith, more)

-- A value in quotes is read as it was before it was escaped.
read_escape_value :
    (k v rest : Text)
    → read_settings (after_equals k) (libpq_escape_value v ++ rest)
      ≡ emit (some (k, v)) (read_settings between rest)
unfolding libpq_escape_value read_settings
read_escape_value k v rest = rw append_assoc (read_escaped k [] v rest)

read_plain :
    (k v : Text) (w rest : Text)
    → All IsDigit w
    → read_settings (plain k v) (w ++ b' ' ∷ rest)
      ≡ emit (some (k, v ++ w)) (read_settings between rest)
unfolding read_settings
read_plain k v [] rest h = rw append-nil
read_plain k v (c ∷ w) rest h =
    let more : read_settings (plain k (v ++ c ∷ [])) (w ++ b' ' ∷ rest)
        ≡ emit (some (k, v ++ c ∷ w)) (read_settings between rest) =
      rw (read_plain k (v ++ c ∷ []) w rest (h.1), append_assoc) in
    ground (arith, more)

read_digits :
    (k : Text) (n : ℕ) (rest : Text)
    → read_settings (after_equals k) (digits n n ++ b' ' ∷ rest)
      ≡ emit (some (k, digits n n)) (read_settings between rest)
unfolding read_settings
read_digits k n rest =
    let (c, s, e, h) = digits-cons n n in
    let all_digits : All IsDigit (c ∷ s) = subst (All IsDigit) e (digits-IsDigit n n) in
    let more = read_plain k (c ∷ []) s rest (all_digits.1) in rw e (ground (arith, more))

-- The settings of the connection string.
abbrev pub password_setting : Text → Settings
password_setting [] = []
password_setting (c ∷ s) = (codes "password", c ∷ s) ∷ []

read_password : (w : Text) → read_settings between (password_part w) ≡ some (password_setting w)
unfolding password_part read_settings
read_password [] = refl
read_password (c ∷ s) =
    ap (λ rest. read_settings (after_equals (codes "password")) rest)
      (sym (append-nil (libpq_escape_value (c ∷ s))))
    ∙ read_escape_value (codes "password") (c ∷ s) []

read_host :
    (s : Text)
    → read_settings between (codes "host=" ++ s) ≡ read_settings (after_equals (codes "host")) s
unfolding read_settings
read_host s = refl

read_port :
    (s : Text)
    → read_settings between (codes " port=" ++ s) ≡ read_settings (after_equals (codes "port")) s
unfolding read_settings
read_port s = refl

read_name :
    (s : Text)
    → read_settings between (codes "dbname=" ++ s) ≡ read_settings (after_equals (codes "dbname")) s
unfolding read_settings
read_name s = refl

read_user :
    (s : Text)
    → read_settings between (codes " user=" ++ s) ≡ read_settings (after_equals (codes "user")) s
unfolding read_settings
read_user s = refl

-- Where no connection string is given, the reader gives back host, port, database, user and password.
read_settings-database_connection_string :
    (files : Files) (config : ServerConfig)
    → config.explicit_database_connection_string ≡ []
    → read_settings between (database_connection_string files config)
      ≡ some (
          (codes "host", config.database_host)
          ∷ (codes "port", to_string (pos config.database_port))
          ∷ (codes "dbname", config.database_name)
          ∷ (codes "user", config.database_user)
          ∷ password_setting (password_of files config))
unfolding database_connection_string to_string is_empty password_of
read_settings-database_connection_string files config none_given =
    let port = config.database_port in
    rw none_given (
      read_host _
      ∙ read_escape_value (codes "host") config.database_host _
      ∙ ap (emit (some (codes "host", config.database_host))) (
          read_port _
          ∙ read_digits (codes "port") port _
          ∙ ap (emit (some (codes "port", digits port port))) (
              read_name _
              ∙ read_escape_value (codes "dbname") config.database_name _
              ∙ ap (emit (some (codes "dbname", config.database_name))) (
                  read_user _
                  ∙ read_escape_value (codes "user") config.database_user _
                  ∙ ap (emit (some (codes "user", config.database_user)))
                      (read_password (password_of files config))))))

-- A text without a NUL.
abbrev pub HasNoZero : Text → Type 0
HasNoZero = All (λ c. c ≢ 0)

c_str-HasNoZero : (s : Text) → HasNoZero s → c_str s ≡ s
unfolding c_str
c_str-HasNoZero [] h = refl
c_str-HasNoZero (c ∷ s) h = ground (arith, c_str-HasNoZero s h.1)

escape_all-HasNoZero : (s : Text) → HasNoZero s → HasNoZero (escape_all s)
unfolding escape_all
escape_all-HasNoZero [] h = tt
escape_all-HasNoZero (c ∷ s) h = ground (arith, escape_all-HasNoZero s h.1)

libpq_escape_value-HasNoZero : (s : Text) → HasNoZero s → HasNoZero (libpq_escape_value s)
unfolding libpq_escape_value
libpq_escape_value-HasNoZero s h =
    (cc, All-append (λ c. c ≢ 0) (escape_all s) (39 ∷ []) (escape_all-HasNoZero s h) (cc, tt))

digits_no_zero : (s : Text) → All IsDigit s → HasNoZero s
digits_no_zero [] h = tt
digits_no_zero (c ∷ s) h = (ground arith, digits_no_zero s h.1)

password_part-HasNoZero : (s : Text) → HasNoZero s → HasNoZero (password_part s)
unfolding password_part
password_part-HasNoZero [] h = tt
password_part-HasNoZero (c ∷ s) h =
    All-append (λ d. d ≢ 0) (codes " password=") (libpq_escape_value (c ∷ s)) (ground arith)
      (libpq_escape_value-HasNoZero (c ∷ s) h)

-- No text that goes into the connection string has a NUL.
abbrev pub HasNoZeros : Files → ServerConfig → Type 0
HasNoZeros files config =
    HasNoZero config.database_host
    × HasNoZero config.database_name
    × HasNoZero config.database_user
    × HasNoZero (password_of files config)

database_connection_string-HasNoZero :
    (files : Files) (config : ServerConfig)
    → config.explicit_database_connection_string ≡ []
    → HasNoZeros files config
    → HasNoZero (database_connection_string files config)
unfolding database_connection_string to_string is_empty password_of
database_connection_string-HasNoZero files config none_given (host, name, user, password) =
    let P : ℕ → Type 0 = λ c. c ≢ 0 in
    let port = config.database_port in
    rw none_given (
      All-append P (codes "host=") _ (ground arith) (
        All-append P (libpq_escape_value config.database_host) _
          (libpq_escape_value-HasNoZero config.database_host host)
          (All-append P (codes " port=") _ (ground arith) (
            All-append P (digits port port) _
              (digits_no_zero (digits port port) (digits-IsDigit port port))
              (All-append P (codes " dbname=") _ (ground arith) (
                All-append P (libpq_escape_value config.database_name) _
                  (libpq_escape_value-HasNoZero config.database_name name)
                  (All-append P (codes " user=") _ (ground arith) (
                    All-append P (libpq_escape_value config.database_user) _
                      (libpq_escape_value-HasNoZero config.database_user user)
                      (password_part-HasNoZero (password_of files config) password)))))))))

password_setting_inj : (s t : Text) → password_setting s ≡ password_setting t → s ≡ t
password_setting_inj [] [] e = refl
password_setting_inj (c ∷ s) (d ∷ t) e = cc
password_setting_inj [] (d ∷ t) e = absurd (cc e)
password_setting_inj (c ∷ s) [] e = absurd (cc e)

-- Where no connection string is given, no text that goes into it has a NUL, and the ports fit 16 bits:
-- two configurations for which PostgreSQL is given the same characters have the same host, port,
-- database, user and password. So no value of one setting passes for another setting.
pub c_str-database_connection_string :
    (files files' : Files) (c d : ServerConfig)
    → c.explicit_database_connection_string ≡ []
    → d.explicit_database_connection_string ≡ []
    → HasNoZeros files c
    → HasNoZeros files' d
    → c.database_port ≤ 65535
    → d.database_port ≤ 65535
    → c_str (database_connection_string files c) ≡ c_str (database_connection_string files' d)
    → (c.database_host ≡ d.database_host)
      × (c.database_port ≡ d.database_port)
      × (c.database_name ≡ d.database_name)
      × (c.database_user ≡ d.database_user)
      × (password_of files c ≡ password_of files' d)
c_str-database_connection_string files files' c d none_c none_d clean_c clean_d port_c port_d same =
    let whole : database_connection_string files c ≡ database_connection_string files' d =
      sym (c_str-HasNoZero _ (database_connection_string-HasNoZero files c none_c clean_c))
      ∙ same
      ∙ c_str-HasNoZero _ (database_connection_string-HasNoZero files' d none_d clean_d) in
    let settings =
      sym (read_settings-database_connection_string files c none_c)
      ∙ ap (read_settings between) whole
      ∙ read_settings-database_connection_string files' d none_d in
    let printed : to_string (pos c.database_port) ≡ to_string (pos d.database_port) = cc settings in
    let passwords : password_setting (password_of files c)
        ≡ password_setting (password_of files' d) =
      cc settings in
    let read_back : returned (pos c.database_port) ≡ returned (pos d.database_port) =
      sym (stoi-to_string (pos c.database_port) (omega (arith, port_c)))
      ∙ ap stoi printed
      ∙ stoi-to_string (pos d.database_port) (omega (arith, port_d)) in
    (cc settings, cc read_back, cc settings, cc settings, password_setting_inj _ _ passwords)
