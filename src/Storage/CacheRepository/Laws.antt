-- ===== src/Storage/CacheRepository/Laws.antt =====
-- What the cache finds after `put` and `warm_up`.
use console_calculator.Prelude.{
  ◌≡◌, refl, Option, none, some, List, [], ◌∷◌, ◌∙◌, sym, arith, if◌then◌else◌,
}
use console_calculator.Prelude.Int.{ℤ}
use console_calculator.Text.{Text, ◌===◌}
use console_calculator.Text.Equality.{===_refl}
use console_calculator.Support.{returned}
use console_calculator.Storage.{OperationRecord}
use console_calculator.Storage.Table.{lookup-insert_or_assign}
use console_calculator.Storage.OperationKey.{make}
use console_calculator.Storage.OperationKey.Kinds.{Kind, Names, make-key_of}
use console_calculator.Storage.OperationKey.Injective.{SameOperands, key_of-SameOperands}
use console_calculator.Storage.CacheRepository.{CacheRepository, put, warm_up, find_by_key, find}

pub find_by_key-put :
    (r : OperationRecord) (k : Text) (c : CacheRepository)
    → find_by_key k (put r c) ≡ (if r.cache_key === k then some r else find_by_key k c)
unfolding find_by_key put
find_by_key-put r k c = lookup-insert_or_assign r.cache_key k r c.cache

-- A record that was put under the key of a calculation is found for every calculation of the same
-- kind and the same operands, in either order where the kind commutes.
pub find-put_self :
    (r : OperationRecord) (c : CacheRepository) (op op' : Text) (k : Kind) (a b : ℤ)
    (x y : Option ℤ)
    → Names op k
    → Names op' k
    → make a x op ≡ returned r.cache_key
    → SameOperands k a x b y
    → find b y op' (put r c) ≡ returned (some r)
unfolding find
find-put_self r c op op' k a b x y h h' e operands =
    let key : make b y op' ≡ returned r.cache_key =
      make-key_of op' k b y h'
      ∙ sym (key_of-SameOperands k a b x y operands)
      ∙ sym (make-key_of op k a x h)
      ∙ e in
    rw (key, find_by_key-put, ===_refl)

-- The last record with the key, if the list holds one.
abbrev pub latest : Text → List OperationRecord → Option OperationRecord
latest k [] = none
latest k (r ∷ records) = elim (latest k records) [
  | some q ↦ some q
  | none ↦ if r.cache_key === k then some r else none
]

abbrev pub or_else : Option OperationRecord → Option OperationRecord → Option OperationRecord
or_else (some r) o = some r
or_else none o = o

-- After a warm-up a key has the last record of the history with that key, and what the cache had
-- where the history has none.
pub find_by_key-warm_up :
    (records : List OperationRecord) (k : Text) (c : CacheRepository)
    → find_by_key k (warm_up records c) ≡ or_else (latest k records) (find_by_key k c)
unfolding warm_up
find_by_key-warm_up [] k c = refl
find_by_key-warm_up (r ∷ records) k c =
    find_by_key-warm_up records k (put r c) ∙ rw find_by_key-put (ground arith)
