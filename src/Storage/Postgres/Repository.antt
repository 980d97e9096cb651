-- ===== src/Storage/Postgres/Repository.antt =====
-- storage/postgres/src/postgres-repository.cpp
use console_calculator.Prelude.{ℕ, zero, suc, ◌+◌, Option, none, some, List, [], ◌∷◌, if◌then◌else◌}
use console_calculator.Prelude.Int.{ℤ}
use console_calculator.Text.{Text, codes, to_string}
use console_calculator.Text.Number.{stoi}
use console_calculator.Support.{Result, returned}
use console_calculator.Support.Exec.{Exec, lift, chain, ◌>>=◌, ◌>>◌}
use console_calculator.Storage.{OperationRecord}
use console_calculator.Storage.Postgres.{
  Libpq, execute, execute_params, expect_command_ok, expect_tuples_ok, row_count, is_null, value,
}

unfoldable pub create_sql : Text
create_sql =
    codes
      "\nCREATE TABLE IF NOT EXISTS operation_history (\n    id BIGSERIAL PRIMARY KEY,\n    first_number INTEGER NOT NULL,\n    second_number INTEGER,\n    operation TEXT NOT NULL,\n    result INTEGER,\n    status INTEGER NOT NULL,\n    cache_key TEXT NOT NULL UNIQUE,\n    created_at TIMESTAMPTZ NOT NULL DEFAULT now()\n);\n"

unfoldable pub select_sql : Text
select_sql =
    codes
      "\nSELECT first_number, second_number, operation, result, status, cache_key\nFROM operation_history\nORDER BY id ASC;\n"

unfoldable pub insert_sql : Text
insert_sql =
    codes
      "\nINSERT INTO operation_history (first_number, second_number, operation, result, status, cache_key)\nVALUES ($1, $2, $3, $4, $5, $6)\nON CONFLICT (cache_key) DO NOTHING;\n"

unfoldable pub to_optional_string : Option ℤ → Option Text
to_optional_string none = none
to_optional_string (some v) = some (to_string v)

-- The parameters of the insertion, in the order of its columns.
unfoldable pub params_of : OperationRecord → List (Option Text)
params_of r =
    some (to_string r.first_number)
    ∷ to_optional_string r.second_number
    ∷ some r.operation
    ∷ to_optional_string r.result
    ∷ some (to_string r.status)
    ∷ some r.cache_key
    ∷ []

module _ (L : Libpq) where
  unfoldable pub init_schema : Option L.Conn → Exec L.World (Unit {0})
  init_schema c = do result ← execute L c create_sql; lift (expect_command_ok L result)

  unfoldable pub parse_optional_int : Option L.Res → ℕ → ℕ → Result (Option ℤ)
  parse_optional_int result row column = chain (is_null L result row column) (λ null.
      if null
      then returned none
      else chain (value L result row column) (λ s. chain (stoi s) (λ v. returned (some v))))

  -- The body of the loop over the rows.
  unfoldable pub read_row : Option L.Res → ℕ → Result OperationRecord
  read_row result row = chain (value L result row 0) (λ a. chain (stoi a) (λ first_number.
      chain (parse_optional_int result row 1) (λ second_number.
        chain (value L result row 2) (λ operation.
          chain (parse_optional_int result row 3) (λ operation_result.
            chain (value L result row 4) (λ b. chain (stoi b) (λ status.
              chain (value L result row 5) (λ cache_key. returned (record {
                first_number = first_number;
                second_number = second_number;
                operation = operation;
                result = operation_result;
                status = status;
                cache_key = cache_key;
              })))))))))

  -- `for (int row = …; row < row_count; ++row)`, on the number of rows left.
  unfoldable pub read_rows : Option L.Res → ℕ → ℕ → Result (List OperationRecord)
  read_rows result row zero = returned []
  read_rows result row (suc left) =
      let rest = read_rows result (row + 1) left in
      chain (read_row result row) (λ r. chain rest (λ records. returned (r ∷ records)))

  unfoldable pub load_history : Option L.Conn → Exec L.World (List OperationRecord)
  load_history c = do
    result ← execute L c select_sql
    lift (expect_tuples_ok L result)
    rows ← lift (row_count L result)
    lift (read_rows result 0 rows)

  unfoldable pub save : Option L.Conn → OperationRecord → Exec L.World (Unit {0})
  save c r = do
    result ← execute_params L c insert_sql (params_of r)
    lift (expect_command_ok L result)
