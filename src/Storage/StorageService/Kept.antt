-- ===== src/Storage/StorageService/Kept.antt =====
-- A service that is up, over a table of accepted records.
use console_calculator.Prelude.{
  ◌≡◌, refl, sym, subst, ◌∙◌, Bool, true, false, none, some, List, [], ◌∷◌, All, All-append,
  Option-cases, inl, inr, if◌then◌else◌,
}
use console_calculator.Text.{Text, ◌===◌}
use console_calculator.Text.Equality.{===_iff}
use console_calculator.Support.{returned}
use console_calculator.Storage.{OperationRecord}
use console_calculator.Storage.Storable.{IsStorable}
use console_calculator.Storage.CacheRepository.{find_by_key}
use console_calculator.Storage.CacheRepository.Laws.{latest}
use console_calculator.Storage.Postgres.{Libpq}
use console_calculator.Storage.Postgres.HistoryTable.{rows_of, with_new, IsHistoryTable}
use console_calculator.Storage.Postgres.HistoryTable.RoundTrip.{save_lem}
use console_calculator.Storage.StorageService.{StorageService, initialize, save}
use console_calculator.Storage.StorageService.Restart.{fresh, initialize-InSync}

one_of :
    (b : Bool) (r q : OperationRecord)
    → (if b then some r else none) ≡ some q
    → (b ≡ true) × (r ≡ q)
one_of true r q e = (refl, cc)
one_of false r q e = cc

module _ (Accepts : OperationRecord → Type 0) where
  -- The last record with a key is accepted, and has the key.
  latest-All :
      (k : Text) (records : List OperationRecord) (q : OperationRecord)
      → All Accepts records
      → latest k records ≡ some q
      → Accepts q × (q.cache_key ≡ k)
  latest-All k [] q h e = cc
  latest-All k (r ∷ records) q h e = elim (Option-cases (latest k records)) [
    | inr (p, found) ↦ latest-All k records q h.1 (found ∙ (rw found at e))
    | inl n ↦
        let (same, records_agree) = one_of (r.cache_key === k) r q (rw n at e) in
        (
          subst Accepts records_agree h.0,
          subst (λ z. z.cache_key ≡ k) records_agree ((===_iff r.cache_key k).0 same),
        )
  ]

  with_new-All :
      (q : OperationRecord) (records : List OperationRecord)
      → Accepts q
      → All Accepts records
      → All Accepts (with_new q records)
  with_new-All q records h k = elim (Option-cases (latest q.cache_key records)) [
    | inl n ↦ rw (n, with_new) (All-append Accepts records (q ∷ []) k (h, tt))
    | inr (r, found) ↦ rw (found, with_new) k
  ]

module _ {L : Libpq} (T : IsHistoryTable L) (Accepts : OperationRecord → Type 0) where
  -- The table of this world holds accepted records only.
  pub record HoldsAccepted (w : L.World) : Type 0 where
    pub records : List OperationRecord
    pub held : T.table w ≡ rows_of records
    pub accepted : All Accepts records

  pub record IsKept (s : StorageService L) : Type 0 where
    pub conn : L.Conn
    pub connected : s.connection ≡ some conn
    pub is_up : L.is_status_ok conn s.world ≡ true
    pub holds : HoldsAccepted s.world

  module _ (storable : (r : OperationRecord) → Accepts r → IsStorable r) where
    pub save-IsKept :
        (q : OperationRecord) (s : StorageService L)
        → IsKept s
        → Accepts q
        → ((save L q s).0 ≡ returned tt) × IsKept (save L q s).1
    unfolding save
    save-IsKept q s kept h =
        let (w, e, up, held) =
          save_lem L T kept.conn s.world kept.holds.records q kept.is_up kept.holds.held
            (storable q h) in
        rw (kept.connected, e)
          (
            refl,
            record {
              conn = kept.conn;
              connected = refl;
              is_up = up;
              holds = record {
                records = with_new q kept.holds.records;
                held = held;
                accepted = with_new-All Accepts q kept.holds.records h kept.holds.accepted;
              };
            },
          )

    All-IsStorable : (records : List OperationRecord) → All Accepts records → All IsStorable records
    All-IsStorable [] h = tt
    All-IsStorable (r ∷ records) h = (storable r h.0, All-IsStorable records h.1)

    -- A start over such a table returns; the service is up, and what its cache finds is accepted.
    pub initialize-IsKept :
        (c : L.Conn) (w : L.World)
        → L.is_status_ok c w ≡ true
        → HoldsAccepted w
        → let (r, s) = initialize L (fresh L T c w) in
          (r ≡ returned tt)
          × IsKept s
          × ((k : Text) (q : OperationRecord)
              → find_by_key k s.cache ≡ some q
              → Accepts q × (q.cache_key ≡ k))
    initialize-IsKept c w up holds =
        let (ends, sync) =
          initialize-InSync L T c w holds.records up holds.held
            (All-IsStorable holds.records holds.accepted) in
        (
          ends,
          record {
            conn = sync.conn;
            connected = sync.connected;
            is_up = sync.is_up;
            holds = record { records = holds.records; held = sync.held; accepted = holds.accepted };
          },
          λ k q found.
              latest-All Accepts k holds.records q holds.accepted (sym (sync.view k) ∙ found),
        )
