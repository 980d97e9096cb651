-- ===== src/Tests/Database.antt =====
-- A database server with one table, to apply the theorems about the storage service to.
use console_calculator.Prelude.{
  sym, ℕ, zero, suc, ◌+◌, ◌≡◌, refl, ap, ◌∙◌, Bool, true, false, ◌||◌, Option, none, some, List, [],
  ◌∷◌, ◌++◌, if◌then◌else◌, arith, Option-cases, inl, inr,
}
use console_calculator.Text.{Text, ◌===◌}
use console_calculator.Text.Equality.{===_refl}
use console_calculator.Storage.{OperationRecord}
use console_calculator.Storage.CacheRepository.Laws.{latest}
use console_calculator.Storage.Postgres.{Libpq}
use console_calculator.Storage.Postgres.Repository.{create_sql, select_sql, insert_sql, params_of}
use console_calculator.Storage.Postgres.HistoryTable.{
  with_new, Row, rows_of, count, ShowsRow, Shows, IsHistoryTable,
}

pub record World : Type 0 where
  pub is_up : Bool
  pub rows : List Row

pub data Reply : Type 0 where
  command : Reply
  tuples : List Row → Reply

abbrev skip : {A : Type 0} → ℕ → List A → List A
skip zero xs = xs
skip (suc n) [] = []
skip (suc n) (x ∷ xs) = skip n xs

abbrev first_row : List Row → Row
first_row [] = []
first_row (row ∷ rows) = row

abbrev first_cell : Row → Option Text
first_cell [] = none
first_cell (cell ∷ row) = cell

abbrev cell : List Row → ℕ → ℕ → Option Text
cell rows i j = first_cell (skip j (first_row (skip i rows)))

abbrev cell_in : Reply → ℕ → ℕ → Option Text
cell_in command i j = none
cell_in (tuples rows) i j = cell rows i j

abbrev is_none : Option Text → Bool
is_none none = true
is_none (some t) = false

abbrev has : Text → Option Text → Bool
has k none = false
has k (some j) = j === k

abbrev is_taken : Text → List Row → Bool
is_taken k [] = false
is_taken k (row ∷ rows) = let rest = is_taken k rows in has k (first_cell (skip 5 row)) || rest

abbrev insert : Row → List Row → List Row
insert row rows = elim (first_cell (skip 5 row)) [
  | none ↦ rows
  | some k ↦ if is_taken k rows then rows else rows ++ row ∷ []
]

abbrev ntuples_of : Reply → ℕ
ntuples_of command = 0
ntuples_of (tuples rows) = count rows

abbrev status_of : Reply → ℕ
status_of command = 1
status_of (tuples rows) = 2

abbrev query : Text → World → Option Reply × World
query sql w =
    if sql === create_sql
    then (some command, w)
    else if sql === select_sql
    then (some (tuples w.rows), w)
    else (none, w)

abbrev change : Text → Row → World → Option Reply × World
change sql params w =
    if sql === insert_sql
    then (some command, record w { rows = insert params w.rows })
    else (none, w)

abbrev pub one_table : Libpq
one_table = record {
  World = World;
  Conn = Unit {0};
  Res = Reply;
  connectdb = λ text w. (some tt, w);
  is_status_ok = λ c w. w.is_up;
  error_message = λ c w. none;
  exec = λ c sql w. query sql w;
  exec_params = λ c sql params w. change sql params w;
  command_ok = 1;
  tuples_ok = 2;
  result_status = status_of;
  status_name = λ n. [];
  result_error_message = λ r. none;
  ntuples = ntuples_of;
  nfields = λ r. 6;
  getisnull = λ r i j. is_none (cell_in r i j);
  getvalue = cell_in;
}

pub select-ne-create : (select_sql === create_sql) ≡ false
unfolding ◌===◌ select_sql create_sql
select-ne-create = refl

skip-suc :
    {A : Type 0} (n : ℕ) (xs : List A) (x : A) (rest : List A)
    → skip n xs ≡ x ∷ rest
    → skip (suc n) xs ≡ rest
skip-suc zero [] x rest e = cc
skip-suc zero (y ∷ xs) x rest e = cc
skip-suc (suc n) [] x rest e = cc
skip-suc (suc n) (y ∷ xs) x rest e = skip-suc n xs x rest e

skip_next :
    {A : Type 0} (n : ℕ) (xs : List A) (x : A) (rest : List A)
    → skip n xs ≡ x ∷ rest
    → skip (n + 1) xs ≡ rest
skip_next n xs x rest e =
    let next : n + 1 ≡ suc n = omega arith in ap (λ m. skip m xs) next ∙ skip-suc n xs x rest e

shows_row :
    (rows : List Row) (i j : ℕ) (row : Row)
    → skip j (first_row (skip i rows)) ≡ row
    → ShowsRow one_table (tuples rows) i j row
shows_row rows i j [] e = tt
shows_row rows i j (none ∷ row) e =
    (ap is_none (ap first_cell e), shows_row rows i (j + 1) row (skip_next j _ none row e))
shows_row rows i j (some t ∷ row) e = (
  (ap is_none (ap first_cell e), ap first_cell e),
  shows_row rows i (j + 1) row (skip_next j _ (some t) row e),
)

pub shows :
    (rows : List Row) (i : ℕ) (rest : List Row)
    → skip i rows ≡ rest
    → Shows one_table (tuples rows) i rest
shows rows i [] e = tt
shows rows i (row ∷ rest) e =
    (shows_row rows i 0 row (ap first_row e), shows rows (i + 1) rest (skip_next i rows row rest e))

pub not_taken :
    (k : Text) (records : List OperationRecord)
    → latest k records ≡ none
    → is_taken k (rows_of records) ≡ false
unfolding params_of
not_taken k [] e = refl
not_taken k (r ∷ records) e = elim (Option-cases (latest k records)) [
  | inl n ↦ ground (arith, not_taken k records n)
  | inr (q, found) ↦ ground arith
]

pub is_taken_lem :
    (k : Text) (records : List OperationRecord) (q : OperationRecord)
    → latest k records ≡ some q
    → is_taken k (rows_of records) ≡ true
unfolding params_of
is_taken_lem k [] q e = cc
is_taken_lem k (r ∷ records) q e = elim (Option-cases (latest k records)) [
  | inl n ↦ ground arith
  | inr (p, found) ↦ ground (arith, is_taken_lem k records p found)
]

pub rows_of-append :
    (records : List OperationRecord) (q : OperationRecord)
    → rows_of (records ++ q ∷ []) ≡ rows_of records ++ params_of q ∷ []
rows_of-append [] q = refl
rows_of-append (r ∷ records) q = ap (λ rows. params_of r ∷ rows) (rows_of-append records q)

pub insert-rows_of :
    (q : OperationRecord) (records : List OperationRecord)
    → insert (params_of q) (rows_of records) ≡ rows_of (with_new q records)
unfolding params_of
insert-rows_of q records = elim (Option-cases (latest q.cache_key records)) [
  | inl n ↦ rw (n, with_new, not_taken q.cache_key records n) (sym (rows_of-append records q))
  | inr (r, found) ↦ rw (found, with_new, is_taken_lem q.cache_key records r found)
]

unfoldable pub one_table-IsHistoryTable : IsHistoryTable one_table
unfolding params_of
one_table-IsHistoryTable = record {
  table = λ w. w.rows;
  create_lem = λ c w up. (command, w, rw (===_refl create_sql), refl, up, refl);
  select_lem = λ c w up. (
    tuples w.rows,
    w,
    rw (select-ne-create, ===_refl select_sql),
    refl,
    up,
    refl,
    refl,
    shows w.rows 0 w.rows refl,
  );
  insert_lem = λ c w records q up held fits. (
    command,
    record w { rows = insert (params_of q) w.rows },
    rw (===_refl insert_sql),
    refl,
    up,
    ap (insert (params_of q)) held ∙ insert-rows_of q records,
  );
}
