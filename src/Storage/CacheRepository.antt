-- ===== src/Storage/CacheRepository.antt =====
-- storage/src/cache-repository.cpp
pub mod Laws
use console_calculator.Prelude.{ℕ, Option, List, [], ◌∷◌}
use console_calculator.Prelude.Int.{ℤ}
use console_calculator.Text.{Text}
use console_calculator.Support.{Result, returned}
use console_calculator.Support.Exec.{chain}
use console_calculator.Storage.{OperationRecord}
use console_calculator.Storage.Table
use console_calculator.Storage.Table.{Table}
use console_calculator.Storage.OperationKey.{make}

pub record CacheRepository : Type 0 where
  pub cache : Table

abbrev pub empty : CacheRepository
empty = record { cache = [] }

unfoldable pub put : OperationRecord → CacheRepository → CacheRepository
put r c = record { cache = Table.insert_or_assign r.cache_key r c.cache }

unfoldable pub warm_up : List OperationRecord → CacheRepository → CacheRepository
warm_up [] c = c
warm_up (r ∷ records) c = warm_up records (put r c)

unfoldable pub find_by_key : Text → CacheRepository → Option OperationRecord
find_by_key key c = Table.lookup key c.cache

unfoldable pub find : ℤ → Option ℤ → Text → CacheRepository → Result (Option OperationRecord)
find first_number second_number operation c =
    chain (make first_number second_number operation) (λ key. returned (find_by_key key c))

unfoldable pub size : CacheRepository → ℕ
size c = Table.size c.cache
