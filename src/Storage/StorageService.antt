-- ===== src/Storage/StorageService.antt =====
-- storage/src/storage-service.cpp: the cache in front of the history.
pub mod Restart
pub mod Kept
use console_calculator.Prelude.{Option, List}
use console_calculator.Prelude.Int.{ℤ}
use console_calculator.Text.{Text}
use console_calculator.Support.{Result, returned, thrown, undefined}
use console_calculator.Support.Exec.{Exec}
use console_calculator.Storage.{OperationRecord}
use console_calculator.Storage.CacheRepository
use console_calculator.Storage.CacheRepository.{CacheRepository}
use console_calculator.Storage.Postgres.{Libpq}
use console_calculator.Storage.Postgres.Repository

module _ (L : Libpq) where
  -- The service with the world in which its connection stands.
  pub record StorageService : Type 0 where
    pub cache : CacheRepository
    pub connection : Option L.Conn
    pub world : L.World

  -- `warm_up(load_history())`, once the history is there or an exception is.
  abbrev warm_with :
      StorageService → Result (List OperationRecord) × L.World → Result (Unit {0}) × StorageService
  warm_with s (returned records, w) =
      (returned tt, record s { cache = CacheRepository.warm_up records s.cache; world = w })
  warm_with s (thrown e, w) = (thrown e, record s { world = w })
  warm_with s (undefined, w) = (undefined, record s { world = w })

  abbrev load_with :
      StorageService → Result (Unit {0}) × L.World → Result (Unit {0}) × StorageService
  load_with s (returned _, w) = warm_with s (Repository.load_history L s.connection w)
  load_with s (thrown e, w) = (thrown e, record s { world = w })
  load_with s (undefined, w) = (undefined, record s { world = w })

  unfoldable pub initialize : Exec StorageService (Unit {0})
  initialize s = load_with s (Repository.init_schema L s.connection s.world)

  unfoldable pub find : ℤ → Option ℤ → Text → Exec StorageService (Option OperationRecord)
  find first_number second_number operation s =
      (CacheRepository.find first_number second_number operation s.cache, s)

  -- The cache first, then the history.
  unfoldable pub save : OperationRecord → Exec StorageService (Unit {0})
  save r s =
      let (saved, w) = Repository.save L s.connection r s.world in
      (saved, record s { cache = CacheRepository.put r s.cache; world = w })
