-- ===== src/Storage/OperationKey.antt =====
-- storage/src/operation-key.cpp: the text under which a calculation is stored.
pub mod Kinds
pub mod Injective
use console_calculator.Prelude.{Bool, ◌&&◌, ◌||◌, Option, none, some, ◌++◌, if◌then◌else◌}
use console_calculator.Prelude.Int.{ℤ, ltb_ℤ}
use console_calculator.Text.{Text, codes, ◌===◌, to_string}
use console_calculator.Support.{
  Result, returned, thrown, calculator_exception, to_int, error_invalid_operation,
  error_missing_second_number,
}
use console_calculator.Support.Exec.{chain}

unfoldable pub is_commutative : Text → Bool
unfolding ◌===◌
is_commutative operation =
    operation === codes "add"
    || operation === codes "+"
    || operation === codes "mul"
    || operation === codes "*"

unfoldable pub is_factorial : Text → Bool
unfolding ◌===◌
is_factorial operation =
    operation === codes "fact" || operation === codes "factorial" || operation === codes "!"

unfoldable pub symbol_for : Text → Result Text
unfolding ◌===◌ is_factorial
symbol_for operation =
    if operation === codes "add" || operation === codes "+"
    then returned (codes "+")
    else if operation === codes "sub" || operation === codes "-"
    then returned (codes "-")
    else if operation === codes "mul" || operation === codes "*"
    then returned (codes "*")
    else if operation === codes "div" || operation === codes "/"
    then returned (codes "/")
    else if operation === codes "pow" || operation === codes "^"
    then returned (codes "^")
    else if is_factorial operation
    then returned (codes "fact")
    else thrown (
        calculator_exception (to_int error_invalid_operation)
          (codes "Unsupported operation for storage key: " ++ operation))

-- The operands of a commutative operation in ascending order: the swap of `make`.
abbrev pub ordered : Bool → ℤ → ℤ → ℤ × ℤ
ordered swaps left right = if swaps && ltb_ℤ right left then (right, left) else (left, right)

unfoldable pub make : ℤ → Option ℤ → Text → Result Text
make first_number second_number operation =
    if is_factorial operation
    then returned (codes "fact(" ++ (to_string first_number ++ codes ")"))
    else elim second_number [
      | none ↦ thrown (
          calculator_exception (to_int error_missing_second_number)
            (codes "Second number is required for binary operation storage key."))
      | some second ↦
          let (left, right) = ordered (is_commutative operation) first_number second in
          chain (symbol_for operation)
            (λ symbol. returned (to_string left ++ (symbol ++ to_string right)))
    ]
