-- ===== src/Tests/Storage.antt =====
-- tests/operation_key_tests.cpp and tests/cache_repository_tests.cpp, and the theorems about storage
-- at concrete data.
use console_calculator.Prelude.{◌≡◌, refl, ◌↔◌, inr, Option, none, some, [], ◌∷◌}
use console_calculator.Prelude.Int.{ℤ, pos, negsuc}
use console_calculator.Text.{Text, codes, to_string, digits, ◌===◌}
use console_calculator.Support.{Result, returned}
use console_calculator.Storage.{OperationRecord}
use console_calculator.Storage.OperationKey.{make, symbol_for, is_factorial, is_commutative}
use console_calculator.Storage.OperationKey.Kinds.{Kind, Names, word-Names}
use console_calculator.Storage.OperationKey.Injective.{SameOperands, make_identifies}
use console_calculator.Storage.CacheRepository.{empty, put, warm_up, find_by_key, find}
use console_calculator.Storage.CacheRepository.Laws.{
  find-put_self, latest, or_else, find_by_key-warm_up,
}

key : ℤ → Option ℤ → Text → Result Text
unfolding make symbol_for is_factorial is_commutative to_string digits ◌===◌
key = make

normalizes :
    (key (pos 2) (some (pos 1)) (codes "add") ≡ returned (codes "1+2"))
    × (key (pos 7) (some (pos 3)) (codes "mul") ≡ returned (codes "3*7"))
    × (key (pos 2) (some (pos 1)) (codes "sub") ≡ returned (codes "2-1"))
    × (key (pos 1) (some (negsuc 1)) (codes "sub") ≡ returned (codes "1--2"))
    × (key (pos 2) (some (pos 1)) (codes "div") ≡ returned (codes "2/1"))
    × (key (pos 5) none (codes "fact") ≡ returned (codes "fact(5)"))
unfolding key
normalizes = (refl, refl, refl, refl, refl, refl)

make_identifies_example : (codes "1+2" ≡ codes "1+2") ↔ (
    (k : Kind) × Names (codes "add") k
    × Names (codes "+") k
    × SameOperands k (pos 2) (some (pos 1)) (pos 1) (some (pos 2)))
unfolding key
make_identifies_example =
    make_identifies (codes "add") (codes "+") (pos 2) (pos 1) (some (pos 1)) (some (pos 2)) refl
      refl

abbrev sum_record : OperationRecord
sum_record = record {
  first_number = pos 1;
  second_number = some (pos 2);
  operation = codes "add";
  result = some (pos 3);
  status = pos 0;
  cache_key = codes "1+2";
}

-- PutsAndFindsRecord
find-put_self_example :
    find (pos 2) (some (pos 1)) (codes "add") (put sum_record empty) ≡ returned (some sum_record)
unfolding key
find-put_self_example =
    find-put_self sum_record empty (codes "add") (codes "add") Kind.sum (pos 1) (pos 2)
      (some (pos 2)) (some (pos 1)) (word-Names Kind.sum) (word-Names Kind.sum) refl
      (inr (refl, refl, refl))

find_by_key-warm_up_example :
    find_by_key (codes "1+2") (warm_up (sum_record ∷ []) empty)
    ≡ or_else (latest (codes "1+2") (sum_record ∷ [])) (find_by_key (codes "1+2") empty)
find_by_key-warm_up_example = find_by_key-warm_up (sum_record ∷ []) (codes "1+2") empty
