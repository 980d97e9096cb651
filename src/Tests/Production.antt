-- ===== src/Tests/Production.antt =====
-- Two lives of the program on one database.
use console_calculator.Prelude.{◌≡◌, refl, true, false, List, [], ◌∷◌, some, arith}
use console_calculator.Prelude.Int.{pos}
use console_calculator.Text.{codes}
use console_calculator.Storage.OperationKey.Kinds.{Kind}
use console_calculator.Storage.StorageService.{StorageService, initialize}
use console_calculator.Storage.StorageService.Restart.{fresh}
use console_calculator.Storage.StorageService.Kept.{HoldsAccepted}
use console_calculator.Server.RequestHandler.Handle.{respond}
use console_calculator.Server.RequestHandler.Meaning.{evaluate}
use console_calculator.Server.RequestHandler.Right.{IsRight}
use console_calculator.Server.RequestHandler.Answers.{answer_of, Carries}
use console_calculator.Server.RequestHandler.History.{after}
use console_calculator.Server.StorageWorker.{worker_storage}
use console_calculator.Server.StorageWorker.Lives.{
  Life, live, after_lives, worker_storage-IsReliable, served-IsSound, respond-after_lives,
}
use console_calculator.Server.StorageWorker.Failing.{
  Event, asks, becomes, behind_events, worker_storage-IsCache, respond-Tells,
}
use console_calculator.Server.RequestHandler.Honest.{HoldsHonest, Tells}
use console_calculator.Storage.Table.{lookup}
use console_calculator.Storage.CacheRepository.{find_by_key}
use console_calculator.Tests.Instances.{
  safe_math, safe_math-IsArithmetic, plain_protocol, plain_protocol-IsLawful, parse,
  parse-ne-undefined,
}
use console_calculator.Tests.Handler.{product_request}
use console_calculator.Tests.Database.{World, one_table, one_table-IsHistoryTable}

abbrev pub empty_table : World
empty_table = record { is_up = true; rows = [] }

pub empty-HoldsAccepted : HoldsAccepted one_table-IsHistoryTable (IsRight safe_math) empty_table
unfolding one_table-IsHistoryTable
empty-HoldsAccepted = record { records = []; held = refl; accepted = tt }

abbrev pub first_life : Life one_table one_table-IsHistoryTable plain_protocol safe_math
first_life = (tt, (b'*' ∷ 4 ∷ 5 ∷ []) ∷ [])

abbrev pub world_between : World
world_between =
    after_lives one_table one_table-IsHistoryTable plain_protocol safe_math (first_life ∷ [])
      empty_table

pub still_up : world_between.is_up ≡ true
unfolding after_lives live worker_storage-IsReliable
still_up =
    (served-IsSound one_table-IsHistoryTable plain_protocol-IsLawful safe_math-IsArithmetic
      parse-ne-undefined tt ((b'*' ∷ 4 ∷ 5 ∷ []) ∷ []) empty_table refl empty-HoldsAccepted).0.is_up

respond-after_lives_example :
    Carries plain_protocol-IsLawful
      (respond plain_protocol safe_math (worker_storage one_table) (b'*' ∷ 5 ∷ 4 ∷ []) (
        after plain_protocol safe_math
          (worker_storage one_table)
          ([] ∷ [])
          (initialize one_table (fresh one_table one_table-IsHistoryTable tt world_between)).1)).0
      (answer_of (codes "req") (evaluate safe_math Kind.product (pos 5) (some (pos 4))))
unfolding parse
respond-after_lives_example =
    respond-after_lives one_table-IsHistoryTable plain_protocol-IsLawful safe_math-IsArithmetic
      parse-ne-undefined (first_life ∷ []) empty_table tt ([] ∷ []) (b'*' ∷ 5 ∷ 4 ∷ [])
      product_request Kind.product (pos 5) (pos 4 ∷ []) empty-HoldsAccepted (refl, tt) still_up refl
      refl refl (omega arith)

-- A service without records, whose database goes away behind the first product.
abbrev no_records : StorageService one_table
no_records = fresh one_table one_table-IsHistoryTable tt empty_table

abbrev goes_away : List (Event one_table plain_protocol safe_math)
goes_away =
    asks (b'*' ∷ 4 ∷ 5 ∷ [])
    ∷ becomes (record { is_up = false; rows = [] })
    ∷ asks (b'+' ∷ 2 ∷ 3 ∷ [])
    ∷ []

no_records-HoldsHonest : HoldsHonest safe_math (worker_storage-IsCache one_table) no_records
unfolding worker_storage-IsCache find_by_key lookup
no_records-HoldsHonest key r found = absurd (cc found)

respond-Tells_example :
    Tells plain_protocol-IsLawful
      (answer_of (codes "req") (evaluate safe_math Kind.product (pos 5) (some (pos 4))))
      (respond plain_protocol safe_math
        (worker_storage one_table)
        (b'*' ∷ 5 ∷ 4 ∷ [])
        (behind_events one_table plain_protocol safe_math goes_away no_records)).0
unfolding parse
respond-Tells_example =
    respond-Tells one_table plain_protocol-IsLawful safe_math-IsArithmetic goes_away no_records
      (b'*' ∷ 5 ∷ 4 ∷ []) product_request Kind.product (pos 5) (pos 4 ∷ []) no_records-HoldsHonest
      refl refl refl (omega arith)
