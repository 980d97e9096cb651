-- ===== src/Server/InMemoryOperationStorage.antt =====
-- server/src/in-memory-operation-storage.cpp. Each method is atomic under the mutex.
use console_calculator.Prelude.{refl, Option}
use console_calculator.Prelude.Int.{ℤ}
use console_calculator.Text.{Text}
use console_calculator.Support.{returned}
use console_calculator.Support.Exec.{Exec, chain}
use console_calculator.Storage.{OperationRecord}
use console_calculator.Storage.Table
use console_calculator.Storage.Table.{Table, lookup-insert_or_assign}
use console_calculator.Storage.OperationKey.{make}
use console_calculator.Server.OperationStorage.{OperationStorage, IsReliable}

unfoldable pub find : ℤ → Option ℤ → Text → Exec Table (Option OperationRecord)
find first_number second_number operation records = (
  chain (make first_number second_number operation) (λ key. returned (Table.lookup key records)),
  records,
)

unfoldable pub save : OperationRecord → Exec Table (Unit {0})
save record_ records = (returned tt, Table.insert_or_assign record_.cache_key record_ records)

abbrev pub in_memory_storage : OperationStorage
in_memory_storage = record { State = Table; find = find; save = save }

-- It is up in every state, and accepts every record.
unfoldable pub in_memory_storage-IsReliable :
    (Accepts : OperationRecord → Type 0) → IsReliable Accepts in_memory_storage
unfolding find save
in_memory_storage-IsReliable Accepts = record {
  IsUp = λ s. Unit {0};
  view = λ s key. Table.lookup key s;
  find_lem = λ a x op s. refl;
  save_lem = λ r s up accepted. (refl, tt);
  view-save = λ r s key up accepted. lookup-insert_or_assign r.cache_key key r s;
}
