-- ===== src/Storage.antt =====
-- storage/include/types/operation-record.h: what is stored of one calculation.
pub mod OperationKey
pub mod Table
pub mod Storable
pub mod CacheRepository
pub mod Postgres
pub mod StorageService
use console_calculator.Prelude.{Option}
use console_calculator.Prelude.Int.{ℤ}
use console_calculator.Text.{Text}

pub record OperationRecord : Type 0 where
  pub first_number : ℤ
  pub second_number : Option ℤ
  pub operation : Text
  pub result : Option ℤ
  pub status : ℤ
  pub cache_key : Text
