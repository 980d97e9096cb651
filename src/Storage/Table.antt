-- ===== src/Storage/Table.antt =====
-- `std::unordered_map<std::string, OperationRecord>`: the order of its entries is not modelled, since
-- the program only looks keys up, assigns them and asks for the number of entries.
use console_calculator.Prelude.{
  ℕ, ◌+◌, ◌≡◌, refl, Option, none, some, List, [], ◌∷◌, arith, length, if◌then◌else◌,
}
use console_calculator.Text.{Text, ◌===◌}
use console_calculator.Text.Equality.{===_iff}
use console_calculator.Storage.{OperationRecord}

abbrev pub Table : Type 0
Table = List (Text × OperationRecord)

-- `map.find(key)`
unfoldable pub lookup : Text → Table → Option OperationRecord
lookup k [] = none
lookup k ((j, r) ∷ t) = if j === k then some r else lookup k t

-- `map.insert_or_assign(key, record)`
unfoldable pub insert_or_assign : Text → OperationRecord → Table → Table
insert_or_assign k r [] = (k, r) ∷ []
insert_or_assign k r ((j, q) ∷ t) = if j === k then (j, r) ∷ t else (j, q) ∷ insert_or_assign k r t

-- `map.size()`
unfoldable pub size : Table → ℕ
size t = length t

pub lookup-insert_or_assign :
    (k j : Text) (r : OperationRecord) (t : Table)
    → lookup j (insert_or_assign k r t) ≡ (if k === j then some r else lookup j t)
unfolding lookup insert_or_assign
lookup-insert_or_assign k j r [] = refl
lookup-insert_or_assign k j r ((i, q) ∷ t) =
    ground (arith, ===_iff k j, ===_iff i k, ===_iff i j, lookup-insert_or_assign k j r t)

-- A key is in one entry at most.
abbrev pub NodupKeys : Table → Type 0
NodupKeys [] = Unit
NodupKeys ((k, r) ∷ t) = (lookup k t ≡ none) × NodupKeys t

pub insert_or_assign-NodupKeys :
    (k : Text) (r : OperationRecord) (t : Table) → NodupKeys t → NodupKeys (insert_or_assign k r t)
unfolding insert_or_assign
insert_or_assign-NodupKeys k r [] u = (unfold lookup in refl, tt)
insert_or_assign-NodupKeys k r ((j, q) ∷ t) (fresh, u) = ground (
  arith,
  ===_iff j k,
  ===_iff k j,
  lookup-insert_or_assign k j r t,
  insert_or_assign-NodupKeys k r t u,
)

pub size-insert_or_assign :
    (k : Text) (r : OperationRecord) (t : Table)
    → size (insert_or_assign k r t) ≡ (elim (lookup k t) [ none ↦ size t + 1 | some q ↦ size t ])
unfolding size insert_or_assign lookup
size-insert_or_assign k r [] = omega arith
size-insert_or_assign k r ((j, q) ∷ t) = ground (arith, size-insert_or_assign k r t)
