-- ===== src/Storage/StorageService/Restart.antt =====
-- The agreement of cache and history, over saves and restarts.
use console_calculator.Prelude.{
  ◌≡◌, refl, sym, ap, ◌∙◌, true, Option, none, some, List, [], ◌∷◌, ◌++◌, if◌then◌else◌, All, arith,
}
use console_calculator.Prelude.Int.{ℤ}
use console_calculator.Text.{Text, ◌===◌}
use console_calculator.Support.{Result, returned, thrown, undefined}
use console_calculator.Support.Exec.{chain}
use console_calculator.Storage.Table.{lookup}
use console_calculator.Storage.OperationKey.{make}
use console_calculator.Storage.{OperationRecord}
use console_calculator.Storage.CacheRepository
use console_calculator.Storage.CacheRepository.{CacheRepository, warm_up, find_by_key}
use console_calculator.Storage.CacheRepository.Laws.{
  latest, or_else, find_by_key-put, find_by_key-warm_up,
}
use console_calculator.Storage.Postgres.{Libpq}
use console_calculator.Storage.Storable.{IsStorable}
use console_calculator.Storage.Postgres.HistoryTable.{with_new, rows_of, IsHistoryTable}
use console_calculator.Storage.Postgres.HistoryTable.RoundTrip.{
  init_schema_lem, load_history_lem, save_lem,
}
use console_calculator.Storage.StorageService.{StorageService, initialize, find, save}

latest-append :
    (k : Text) (records : List OperationRecord) (q : OperationRecord)
    → latest k (records ++ q ∷ []) ≡ (if q.cache_key === k then some q else latest k records)
latest-append k [] q = refl
latest-append k (r ∷ records) q = rw (latest-append k records q) (ground arith)

All-append :
    (records : List OperationRecord) (q : OperationRecord)
    → All IsStorable records
    → IsStorable q
    → All IsStorable (records ++ q ∷ [])
All-append [] q fits h = (h, tt)
All-append (r ∷ records) q fits h = (fits.0, All-append records q (fits.1) h)

or_else-none : (o : Option OperationRecord) → or_else o none ≡ o
or_else-none none = refl
or_else-none (some r) = refl

find_by_key-empty : (k : Text) → find_by_key k CacheRepository.empty ≡ none
unfolding find_by_key lookup
find_by_key-empty k = refl

chain_cong :
    (r : Result Text) (f g : Text → Option OperationRecord)
    → ((k : Text) → f k ≡ g k)
    → chain r (λ k. returned (f k)) ≡ chain r (λ k. returned (g k))
chain_cong (returned k) f g h = ap returned (h k)
chain_cong (thrown e) f g h = refl
chain_cong undefined f g h = refl

with_new_lem :
    (q : OperationRecord) (records : List OperationRecord)
    → latest q.cache_key records ≡ none
    → with_new q records ≡ records ++ q ∷ []
with_new_lem q records new = rw (new, with_new)

module _ (L : Libpq) (T : IsHistoryTable L) where
  -- The connection is up, the table holds the given records, and the cache finds the last of them
  -- with a key.
  pub record InSync (s : StorageService L) (records : List OperationRecord) : Type 0 where
    pub conn : L.Conn
    pub connected : s.connection ≡ some conn
    pub is_up : L.is_status_ok conn s.world ≡ true
    pub held : T.table s.world ≡ rows_of records
    pub fits : All IsStorable records
    pub view : (k : Text) → find_by_key k s.cache ≡ latest k records

  -- A service as the program makes it: an empty cache before a connection.
  abbrev pub fresh : L.Conn → L.World → StorageService L
  fresh c w = record { cache = CacheRepository.empty; connection = some c; world = w }

  -- On a database that is a history table (IsHistoryTable):
  -- Where the connection is up and the table holds records of the program, `initialize` returns, and
  -- then the cache finds for every key the last record of the table with it.
  pub initialize-InSync :
      (c : L.Conn) (w : L.World) (records : List OperationRecord)
      → L.is_status_ok c w ≡ true
      → T.table w ≡ rows_of records
      → All IsStorable records
      → ((initialize L (fresh c w)).0 ≡ returned tt) × InSync (initialize L (fresh c w)).1 records
  unfolding initialize
  initialize-InSync c w records up held fits =
      let (w1, e1, up1, kept1) = init_schema_lem L T c w up in
      let (w2, e2, up2, kept2) = load_history_lem L T c w1 records up1 (kept1 ∙ held) fits in
      rw (e1, e2)
        (
          refl,
          record {
            conn = c;
            connected = refl;
            is_up = up2;
            held = kept2 ∙ kept1 ∙ held;
            fits = fits;
            view = λ k.
                find_by_key-warm_up records k CacheRepository.empty
                ∙ ap (or_else (latest k records)) (find_by_key-empty k)
                ∙ or_else-none (latest k records);
          },
        )

  -- On a database that is a history table (IsHistoryTable):
  -- Saving a record whose key is new, in a service whose cache and table agree, returns, and cache
  -- and table agree again, with the record added.
  pub save-InSync :
      (s : StorageService L) (records : List OperationRecord) (q : OperationRecord)
      → InSync s records
      → IsStorable q
      → latest q.cache_key records ≡ none
      → ((save L q s).0 ≡ returned tt) × InSync (save L q s).1 (records ++ q ∷ [])
  unfolding save
  save-InSync s records q sync fits new =
      let (w, e, up, held) = save_lem L T sync.conn s.world records q sync.is_up sync.held fits in
      rw (sync.connected, e)
        (
          refl,
          record {
            conn = sync.conn;
            connected = refl;
            is_up = up;
            held = held ∙ ap rows_of (with_new_lem q records new);
            fits = All-append records q sync.fits fits;
            view = λ k.
                find_by_key-put q k s.cache
                ∙ ap (λ o. if q.cache_key === k then some q else o) (sync.view k)
                ∙ sym (latest-append k records q);
          },
        )

  -- On a database that is a history table (IsHistoryTable):
  -- A service whose cache and table agree is stopped and a new one is started on the same database,
  -- with a connection of its own that is up: the start returns, and whatever the old service found
  -- the new one finds.
  pub find-initialize :
      (s : StorageService L) (records : List OperationRecord) (c : L.Conn) (a : ℤ) (x : Option ℤ)
      (op : Text)
      → InSync s records
      → L.is_status_ok c s.world ≡ true
      → ((initialize L (fresh c s.world)).0 ≡ returned tt)
        × ((find L a x op (initialize L (fresh c s.world)).1).0 ≡ (find L a x op s).0)
  unfolding find CacheRepository.find
  find-initialize s records c a x op sync up =
      let (ends, again) = initialize-InSync c s.world records up sync.held sync.fits in
      (ends, chain_cong (make a x op) _ _ (λ k. again.view k ∙ sym (sync.view k)))
