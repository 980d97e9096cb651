-- ===== src/Storage/Postgres/HistoryTable/RoundTrip.antt =====
-- From records to rows and back.
use console_calculator.Prelude.{
  ℕ, ◌+◌, ◌≡◌, refl, ap, subst, ◌∙◌, true, Option, none, some, List, [], ◌∷◌, All, arith,
}
use console_calculator.Prelude.Int.{ℤ}
use console_calculator.Text.{Text, to_string}
use console_calculator.Text.Number.RoundTrip.{stoi-to_string}
use console_calculator.Support.{returned}
use console_calculator.Storage.{OperationRecord}
use console_calculator.Storage.Postgres.{
  Libpq, value, is_null, get, row_count, expect_tuples_ok, expect_command_ok, expect_status,
  execute, execute_params, ensure_connected, is_connected, make_result,
}
use console_calculator.Storage.Postgres.Repository.{
  create_sql, select_sql, insert_sql, params_of, to_optional_string, parse_optional_int, read_row,
  read_rows, load_history, init_schema, save,
}
use console_calculator.Storage.Storable.{IsStorable, FitsOptional}
use console_calculator.Storage.Postgres.HistoryTable.{
  with_new, rows_of, ShowsCell, ShowsRow, Shows, count, IsHistoryTable,
}

module _ (L : Libpq) where
  value_some :
      (r : L.Res) (i j : ℕ) (t : Text)
      → ShowsCell L r i j (some t)
      → value L (some r) i j ≡ returned t
  unfolding value is_null get
  value_some r i j t (filled, same) = rw (filled, same)

  parse_optional_int_lem :
      (r : L.Res) (i j : ℕ) (a : Option ℤ)
      → FitsOptional a
      → ShowsCell L r i j (to_optional_string a)
      → parse_optional_int L (some r) i j ≡ returned a
  unfolding parse_optional_int to_optional_string is_null get
  parse_optional_int_lem r i j none fits shown = rw shown
  parse_optional_int_lem r i j (some a) fits shown =
      rw (shown.0, value_some r i j (to_string a) shown, stoi-to_string a fits)

  read_row_lem :
      (r : L.Res) (i : ℕ) (q : OperationRecord)
      → IsStorable q
      → ShowsRow L r i 0 (params_of q)
      → read_row L (some r) i ≡ returned q
  unfolding read_row params_of
  read_row_lem r i q (f0, f1, _, f3, f4, _) shown =
      let s1 = shown.1 in
      let s2 = s1.1 in
      let s3 = s2.1 in
      let s4 = s3.1 in
      let s5 = s4.1 in
      rw (
        value_some r i 0 (to_string q.first_number) (shown.0),
        stoi-to_string q.first_number f0,
        parse_optional_int_lem r i 1 q.second_number f1 (s1.0),
        value_some r i 2 q.operation (s2.0),
        parse_optional_int_lem r i 3 q.result f3 (s3.0),
        value_some r i 4 (to_string q.status) (s4.0),
        stoi-to_string q.status f4,
        value_some r i 5 q.cache_key (s5.0),
      )

  read_rows_lem :
      (r : L.Res) (i : ℕ) (records : List OperationRecord)
      → All IsStorable records
      → Shows L r i (rows_of records)
      → read_rows L (some r) i (count (rows_of records)) ≡ returned records
  unfolding read_rows
  read_rows_lem r i [] fits shown = refl
  read_rows_lem r i (q ∷ records) fits shown =
      rw (read_row_lem r i q (fits.0) (shown.0), read_rows_lem r (i + 1) records (fits.1) (shown.1))

  expect_status_lem :
      (r : L.Res) (n : ℕ) (name : Text)
      → L.result_status r ≡ n
      → expect_status L (some r) n name ≡ returned tt
  unfolding expect_status get
  expect_status_lem r n name h = rw h (ground arith)

  execute_lem :
      (c : L.Conn) (sql : Text) (w w' : L.World) (r : L.Res)
      → L.is_status_ok c w ≡ true
      → L.exec c sql w ≡ (some r, w')
      → execute L (some c) sql w ≡ (returned (some r), w')
  unfolding execute ensure_connected is_connected make_result
  execute_lem c sql w w' r up e = rw (up, e)

  execute_params_lem :
      (c : L.Conn) (sql : Text) (params : List (Option Text)) (w w' : L.World) (r : L.Res)
      → L.is_status_ok c w ≡ true
      → L.exec_params c sql params w ≡ (some r, w')
      → execute_params L (some c) sql params w ≡ (returned (some r), w')
  unfolding execute_params ensure_connected is_connected make_result
  execute_params_lem c sql params w w' r up e = rw (up, e)

  module _ (T : IsHistoryTable L) where
    -- `init_schema` succeeds and keeps the rows.
    pub init_schema_lem :
        (c : L.Conn) (w : L.World)
        → L.is_status_ok c w ≡ true
        → (w' : L.World) × (init_schema L (some c) w ≡ (returned tt, w'))
          × (L.is_status_ok c w' ≡ true)
          × (T.table w' ≡ T.table w)
    unfolding init_schema expect_command_ok
    init_schema_lem c w up =
        let (r, w', e, ok, up', kept) = T.create_lem c w up in
        (
          w',
          rw (execute_lem c create_sql w w' r up e, expect_status_lem r L.command_ok _ ok),
          up',
          kept,
        )

    -- The history that is loaded is the list of records that was inserted.
    pub load_history_lem :
        (c : L.Conn) (w : L.World) (records : List OperationRecord)
        → L.is_status_ok c w ≡ true
        → T.table w ≡ rows_of records
        → All IsStorable records
        → (w' : L.World) × (load_history L (some c) w ≡ (returned records, w'))
          × (L.is_status_ok c w' ≡ true)
          × (T.table w' ≡ T.table w)
    unfolding load_history expect_tuples_ok row_count get
    load_history_lem c w records up held fits =
        let (r, w', e, ok, up', kept, number, shown) = T.select_lem c w up in
        let rows : read_rows L (some r) 0 (L.ntuples r) ≡ returned records =
          ap (read_rows L (some r) 0) (number ∙ ap count held)
          ∙ read_rows_lem r 0 records fits (subst (Shows L r 0) held shown) in
        (
          w',
          rw (execute_lem c select_sql w w' r up e, expect_status_lem r L.tuples_ok _ ok, rows),
          up',
          kept,
        )

    pub save_lem :
        (c : L.Conn) (w : L.World) (records : List OperationRecord) (q : OperationRecord)
        → L.is_status_ok c w ≡ true
        → T.table w ≡ rows_of records
        → IsStorable q
        → (w' : L.World) × (save L (some c) q w ≡ (returned tt, w'))
          × (L.is_status_ok c w' ≡ true)
          × (T.table w' ≡ rows_of (with_new q records))
    unfolding save expect_command_ok
    save_lem c w records q up held fits =
        let (r, w', e, ok, up', added) = T.insert_lem c w records q up held fits in
        (
          w',
          rw (
            execute_params_lem c insert_sql (params_of q) w w' r up e,
            expect_status_lem r L.command_ok _ ok,
          ),
          up',
          added,
        )
