-- ===== src/Storage/Postgres/HistoryTable.antt =====
-- What the repository needs of PostgreSQL: the three statements of postgres-repository.cpp act on a
-- table of rows, each with the text of its columns.
pub mod RoundTrip
use console_calculator.Prelude.{
  ℕ, suc, ◌+◌, ◌≡◌, Bool, true, false, Option, none, some, List, [], ◌∷◌, ◌++◌, ◌==◌, if◌then◌else◌,
  All, ◌<◌,
}
use console_calculator.Prelude.Int.{ℤ, InInt}
use console_calculator.Text.{Text}
use console_calculator.Storage.{OperationRecord}
use console_calculator.Storage.Storable.{IsStorable}
use console_calculator.Storage.CacheRepository.Laws.{latest}
use console_calculator.Storage.Postgres.{Libpq}
use console_calculator.Storage.Postgres.Repository.{create_sql, select_sql, insert_sql, params_of}

-- A column that is NULL is `none`.
abbrev pub Row : Type 0
Row = List (Option Text)

abbrev pub rows_of : List OperationRecord → List Row
rows_of [] = []
rows_of (r ∷ records) = params_of r ∷ rows_of records

abbrev pub count : List Row → ℕ
count [] = 0
count (_ ∷ rows) = suc (count rows)

-- `ON CONFLICT (cache_key) DO NOTHING`
abbrev pub with_new : OperationRecord → List OperationRecord → List OperationRecord
with_new q records = elim (latest q.cache_key records) [
  | some _ ↦ records
  | none ↦ records ++ q ∷ []
]

module _ (L : Libpq) where
  abbrev pub ShowsCell : L.Res → ℕ → ℕ → Option Text → Type 0
  ShowsCell r i j none = L.getisnull r i j ≡ true
  ShowsCell r i j (some t) = (L.getisnull r i j ≡ false) × (L.getvalue r i j ≡ some t)

  abbrev pub ShowsRow : L.Res → ℕ → ℕ → Row → Type 0
  ShowsRow r i j [] = Unit {0}
  ShowsRow r i j (cell ∷ row) = ShowsCell r i j cell × ShowsRow r i (j + 1) row

  abbrev pub Shows : L.Res → ℕ → List Row → Type 0
  Shows r i [] = Unit {0}
  Shows r i (row ∷ rows) = ShowsRow r i 0 row × Shows r (i + 1) rows

  -- A server whose connections stay up: `CREATE TABLE IF NOT EXISTS` keeps the rows, the selection
  -- gives them back in the order of their ids, and the insertion appends a row, unless one has the key.
  pub record IsHistoryTable : Type 0 where
    pub table : L.World → List Row
    pub create_lem :
        (c : L.Conn) (w : L.World)
        → L.is_status_ok c w ≡ true
        → (r : L.Res) × (w' : L.World) × (L.exec c create_sql w ≡ (some r, w'))
          × (L.result_status r ≡ L.command_ok)
          × (L.is_status_ok c w' ≡ true)
          × (table w' ≡ table w)
    pub select_lem :
        (c : L.Conn) (w : L.World)
        → L.is_status_ok c w ≡ true
        → (r : L.Res) × (w' : L.World) × (L.exec c select_sql w ≡ (some r, w'))
          × (L.result_status r ≡ L.tuples_ok)
          × (L.is_status_ok c w' ≡ true)
          × (table w' ≡ table w)
          × (L.ntuples r ≡ count (table w))
          × Shows r 0 (table w)
    pub insert_lem :
        (c : L.Conn) (w : L.World) (records : List OperationRecord) (q : OperationRecord)
        → L.is_status_ok c w ≡ true
        → table w ≡ rows_of records
        → IsStorable q
        → (r : L.Res) × (w' : L.World) × (L.exec_params c insert_sql (params_of q) w ≡ (some r, w'))
          × (L.result_status r ≡ L.command_ok)
          × (L.is_status_ok c w' ≡ true)
          × (table w' ≡ rows_of (with_new q records))
