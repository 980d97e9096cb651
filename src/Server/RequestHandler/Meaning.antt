-- ===== src/Server/RequestHandler/Meaning.antt =====
-- What a request means, told without the storage: the kind of its operation, its operands, and the
-- value or the error that the arithmetic library gives for them.
use console_calculator.Prelude.{
  ◌≡◌, ◌≢◌, refl, inl, inr, Option, none, some, List, [], ◌∷◌, if◌then◌else◌,
}
use console_calculator.Prelude.Int.{ℤ, pos, ltb_ℤ, InInt}
use console_calculator.Text.{codes}
use console_calculator.Protocol.{ProtocolOperation}
use console_calculator.Support.{Exception, Result, returned, thrown, calculator_exception}
use console_calculator.Support.Exec.{chain}
use console_calculator.Core.{
  OperationCode, operation_addition, operation_subtraction, operation_multiplication,
  operation_division, operation_exponentiation, operation_factorial,
}
use console_calculator.Core.Abacus.{MathLib, MathError}
use console_calculator.Storage.{OperationRecord}
use console_calculator.Storage.OperationKey.Kinds.{
  Kind, sum, difference, product, quotient, power, factorial, missing_second,
}
use console_calculator.Storage.OperationKey.Injective.{SameOperands}

abbrev pub operation_of : Kind → ProtocolOperation
operation_of sum = ProtocolOperation.addition
operation_of difference = ProtocolOperation.subtraction
operation_of product = ProtocolOperation.multiplication
operation_of quotient = ProtocolOperation.division
operation_of power = ProtocolOperation.exponentiation
operation_of factorial = ProtocolOperation.factorial

abbrev pub code_of : Kind → OperationCode
code_of sum = operation_addition
code_of difference = operation_subtraction
code_of product = operation_multiplication
code_of quotient = operation_division
code_of power = operation_exponentiation
code_of factorial = operation_factorial

abbrev pub second_of : List ℤ → Option ℤ
second_of [] = none
second_of (b ∷ rest) = some b

-- A factorial has no second operand, whatever the request holds.
abbrev pub operand_of : Kind → Option ℤ → Option ℤ
operand_of factorial x = none
operand_of _ x = x

abbrev pub or_zero : Option ℤ → ℤ
or_zero none = pos 0
or_zero (some b) = b

-- The conditions on the operands: ERROR_NEGATIVE_FACTORIAL is 8, ERROR_NEGATIVE_POWER is 9.
abbrev pub admit : Kind → ℤ → Option ℤ → Result (Unit {0})
admit factorial a x =
    if ltb_ℤ a (pos 0)
    then thrown (calculator_exception (pos 8) (codes "Factorial argument must be non-negative."))
    else returned tt
admit k a none = thrown missing_second
admit power a (some b) =
    if ltb_ℤ b (pos 0)
    then thrown (calculator_exception (pos 9) (codes "Negative power is not supported."))
    else returned tt
admit k a (some b) = returned tt

-- The number of core's error code for a status of the library: ERROR_OVERFLOW is 10,
-- ERROR_DIVISION_BY_ZERO is 7, and any other failure is an ERROR_INVALID_OPERATION, 6.
abbrev pub code_for : MathError → ℤ
code_for MathError.error_none = pos 0
code_for MathError.error_overflow = pos 10
code_for MathError.error_division_by_zero = pos 7
code_for _ = pos 6

abbrev pub failed : MathError → Exception
failed e = calculator_exception (code_for e) (codes "Calculation failed.")

abbrev pub value_of : MathError × ℤ → Result ℤ
value_of (MathError.error_none, v) = returned v
value_of (e, v) = thrown (failed e)

module _ (M : MathLib) where
  abbrev pub call : Kind → ℤ → ℤ → MathError × ℤ
  call sum a b = M.addition a b (pos 0)
  call difference a b = M.subtraction a b (pos 0)
  call product a b = M.multiplication a b (pos 0)
  call quotient a b = M.division a b (pos 0)
  call power a b = M.exponentiation a b (pos 0)
  call factorial a b = M.factorial a (pos 0)

  abbrev pub evaluate : Kind → ℤ → Option ℤ → Result ℤ
  evaluate k a x = chain (admit k a x) (λ _. value_of (call k a (or_zero x)))

-- What the arithmetic library gives fits `int`. Its sum and its product do not depend on the order of
-- the operands: the status is the same, and so is the value where there is one.
pub record IsArithmetic (M : MathLib) : Type 0 where
  pub addition_comm :
      (a b r : ℤ)
      → ((M.addition a b r).0 ≡ (M.addition b a r).0)
        × ((M.addition a b r).0 ≡ MathError.error_none
            → (M.addition a b r).1 ≡ (M.addition b a r).1)
  pub multiplication_comm :
      (a b r : ℤ)
      → ((M.multiplication a b r).0 ≡ (M.multiplication b a r).0)
        × ((M.multiplication a b r).0 ≡ MathError.error_none
            → (M.multiplication a b r).1 ≡ (M.multiplication b a r).1)
  pub in_range :
      (k : Kind) (a b : ℤ) → (call M k a b).0 ≡ MathError.error_none → InInt (call M k a b).1

value_of_eq :
    (o p : MathError × ℤ)
    → o.0 ≡ p.0
    → (o.0 ≡ MathError.error_none → o.1 ≡ p.1)
    → value_of o ≡ value_of p
value_of_eq (MathError.error_none, v) (e, w) h k = rw (← h, k refl)
value_of_eq (_, v) (e, w) h k = rw (← h)

-- The same calculation has the same value or the same error.
pub evaluate-SameOperands :
    (M : MathLib) (k : Kind) (a b : ℤ) (x y : Option ℤ)
    → IsArithmetic M
    → SameOperands k a x b y
    → evaluate M k a x ≡ evaluate M k b y
evaluate-SameOperands M factorial a b x y h e = rw e
evaluate-SameOperands M k a b none y h e = absurd e
evaluate-SameOperands M k a b (some c) none h e = absurd e
evaluate-SameOperands M k a b (some c) (some d) h (inl (p, q)) = rw (p, q)
evaluate-SameOperands M sum a b (some c) (some d) h (inr (s, p, q)) =
    rw (p, q) (value_of_eq _ _ (h.addition_comm d b (pos 0)).0 (h.addition_comm d b (pos 0)).1)
evaluate-SameOperands M product a b (some c) (some d) h (inr (s, p, q)) =
    rw (p, q)
      (value_of_eq _ _ (h.multiplication_comm d b (pos 0)).0 (h.multiplication_comm d b (pos 0)).1)
evaluate-SameOperands M _ a b (some c) (some d) h (inr (s, p, q)) = cc

-- The record holds this outcome.
abbrev pub Holds : OperationRecord → Result ℤ → Type 0
Holds r (returned v) = (r.status ≡ pos 0) × (r.result ≡ some v)
Holds r (thrown (calculator_exception c message)) = (r.status ≡ c) × (c ≢ pos 0)
Holds r _ = ⊥
