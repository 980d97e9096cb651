-- ===== src/Storage/Postgres.antt =====
-- storage/postgres: the connection and the result, over libpq, which is a parameter. A call of libpq
-- takes the state of the world, server and connection, and gives it back.
pub mod Repository
pub mod HistoryTable
use console_calculator.Prelude.{
  ℕ, Bool, true, false, not, Option, none, some, List, [], ◌∷◌, ◌++◌, ◌==◌, if◌then◌else◌,
}
use console_calculator.Prelude.Int.{ℤ}
use console_calculator.Text.{Text, codes, c_str}
use console_calculator.Support.{
  Result, returned, thrown, calculator_exception, Exception, to_int, error_storage,
}
use console_calculator.Support.Exec.{Exec, pure, raise, lift, chain, ◌>>=◌, ◌>>◌}

-- What the program calls of libpq. A null pointer is `none`.
pub record Libpq : Type 1 where
  pub World : Type 0
  pub Conn : Type 0
  pub Res : Type 0
  pub connectdb : Text → World → Option Conn × World
  pub is_status_ok : Conn → World → Bool
  pub error_message : Conn → World → Option Text
  pub exec : Conn → Text → World → Option Res × World
  pub exec_params : Conn → Text → List (Option Text) → World → Option Res × World
  pub command_ok : ℕ
  pub tuples_ok : ℕ
  pub result_status : Res → ℕ
  pub status_name : ℕ → Text
  pub result_error_message : Res → Option Text
  pub ntuples : Res → ℕ
  pub nfields : Res → ℕ
  pub getisnull : Res → ℕ → ℕ → Bool
  pub getvalue : Res → ℕ → ℕ → Option Text

abbrev pub storage_exception : Text → Exception
storage_exception message = calculator_exception (to_int error_storage) message

-- `message != nullptr ? std::string(message) : std::string{}`
abbrev pub or_empty : Option Text → Text
or_empty none = []
or_empty (some s) = s

module _ (L : Libpq) where
  -- `PostgresConnection::is_connected`; the pointer is null in an object that was moved from.
  unfoldable pub is_connected : Option L.Conn → L.World → Bool
  is_connected none w = false
  is_connected (some c) w = L.is_status_ok c w

  unfoldable pub last_error : Option L.Conn → L.World → Text
  last_error none w = codes "PostgreSQL connection is null."
  last_error (some c) w = or_empty (L.error_message c w)

  unfoldable pub ensure_connected : Option L.Conn → Exec L.World (Unit {0})
  ensure_connected c w = if is_connected c w then (returned tt, w) else (
    thrown (storage_exception (codes "PostgreSQL connection failed: " ++ last_error c w)),
    w,
  )

  -- The constructor of `PostgresConnection`.
  unfoldable pub connect : Text → Exec L.World (Option L.Conn)
  connect connection_string w =
      let (c, w') = L.connectdb (c_str connection_string) w in (ensure_connected c >> pure c) w'

  -- The constructor of `PostgresResult` throws on a null pointer.
  unfoldable pub make_result : Option L.Res → Result (Option L.Res)
  make_result none = thrown (storage_exception (codes "PostgreSQL result was not created."))
  make_result (some r) = returned (some r)

  -- The pointer of a connected object is not null.
  abbrev call :
      Option L.Conn → (L.Conn → L.World → Option L.Res × L.World) → Exec L.World (Option L.Res)
  call none f w = (returned none, w)
  call (some c) f w = let (r, w') = f c w in (make_result r, w')

  unfoldable pub execute : Option L.Conn → Text → Exec L.World (Option L.Res)
  execute c sql = ensure_connected c >> call c (λ conn. L.exec conn sql)

  unfoldable pub execute_params :
      Option L.Conn → Text → List (Option Text) → Exec L.World (Option L.Res)
  execute_params c sql params = ensure_connected c >> call c (λ conn. L.exec_params conn sql params)

  -- `PostgresResult::get`
  unfoldable pub get : Option L.Res → Result L.Res
  get none = thrown (storage_exception (codes "PostgreSQL result is empty."))
  get (some r) = returned r

  unfoldable pub expect_status : Option L.Res → ℕ → Text → Result (Unit {0})
  expect_status result expected name = chain (get result) (λ r.
      let actual = L.result_status r in
      if actual == expected
      then returned tt
      else thrown (
          storage_exception (
            codes "Unexpected PostgreSQL result status. Expected "
            ++ (name
                ++ (codes ", got "
                    ++ (L.status_name actual
                        ++ (codes ". " ++ or_empty (L.result_error_message r))))))))

  unfoldable pub expect_command_ok : Option L.Res → Result (Unit {0})
  expect_command_ok result = expect_status result L.command_ok (codes "PGRES_COMMAND_OK")

  unfoldable pub expect_tuples_ok : Option L.Res → Result (Unit {0})
  expect_tuples_ok result = expect_status result L.tuples_ok (codes "PGRES_TUPLES_OK")

  unfoldable pub row_count : Option L.Res → Result ℕ
  row_count result = chain (get result) (λ r. returned (L.ntuples r))

  unfoldable pub column_count : Option L.Res → Result ℕ
  column_count result = chain (get result) (λ r. returned (L.nfields r))

  unfoldable pub is_null : Option L.Res → ℕ → ℕ → Result Bool
  is_null result row column = chain (get result) (λ r. returned (L.getisnull r row column))

  unfoldable pub value : Option L.Res → ℕ → ℕ → Result Text
  value result row column = chain (is_null result row column) (λ null.
      if null
      then returned []
      else chain (get result) (λ r. returned (or_empty (L.getvalue r row column))))
