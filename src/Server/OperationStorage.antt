-- ===== src/Server/OperationStorage.antt =====
-- server/include/operation-storage.h: the interface between the handler and a storage.
use console_calculator.Prelude.{◌≡◌, ◌⊎◌, Option, some, if◌then◌else◌}
use console_calculator.Prelude.Int.{ℤ}
use console_calculator.Text.{Text, ◌===◌}
use console_calculator.Support.{returned, thrown}
use console_calculator.Support.Exec.{Exec, chain}
use console_calculator.Storage.{OperationRecord}
use console_calculator.Storage.OperationKey.{make}
use console_calculator.Storage.Postgres.{storage_exception}

pub record OperationStorage : Type 1 where
  pub State : Type 0
  pub find : ℤ → Option ℤ → Text → Exec State (Option OperationRecord)
  pub save : OperationRecord → Exec State (Unit {0})

-- A storage that works, in the states in which it is up, for the records that it accepts: it is a map
-- from keys to records, seen through `view`, and neither operation fails but for a key that cannot be
-- made.
pub record IsReliable (Accepts : OperationRecord → Type 0) (st : OperationStorage) : Type 1 where
  pub IsUp : st.State → Type 0
  pub view : st.State → Text → Option OperationRecord
  pub find_lem :
      (a : ℤ) (x : Option ℤ) (op : Text) (s : st.State)
      → st.find a x op s ≡ (chain (make a x op) (λ key. returned (view s key)), s)
  pub save_lem :
      (r : OperationRecord) (s : st.State)
      → IsUp s
      → Accepts r
      → ((st.save r s).0 ≡ returned tt) × IsUp (st.save r s).1
  pub view-save :
      (r : OperationRecord) (s : st.State) (key : Text)
      → IsUp s
      → Accepts r
      → view (st.save r s).1 key ≡ (if r.cache_key === key then some r else view s key)

-- A storage that may fail to save: seen through `view` it is a map all the same, whether a save returns or
-- throws, and a save throws nothing but a storage exception.
pub record IsCache (st : OperationStorage) : Type 1 where
  pub view : st.State → Text → Option OperationRecord
  pub find_lem :
      (a : ℤ) (x : Option ℤ) (op : Text) (s : st.State)
      → st.find a x op s ≡ (chain (make a x op) (λ key. returned (view s key)), s)
  pub save_lem :
      (r : OperationRecord) (s : st.State)
      → ((st.save r s).0 ≡ returned tt)
        ⊎ ((message : Text) × ((st.save r s).0 ≡ thrown (storage_exception message)))
  pub view-save :
      (r : OperationRecord) (s : st.State) (key : Text)
      → view (st.save r s).1 key ≡ (if r.cache_key === key then some r else view s key)
