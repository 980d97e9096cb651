-- ===== src/Server/RequestHandler/Checked.antt =====
-- The checker and the calculator one after the other, on the data that a request of two operands makes:
-- core/src/checker.cpp and core/src/abacus.cpp as server/src/request-handler.cpp calls them.
use console_calculator.Prelude.{◌≡◌, refl, ap, ◌∙◌, some}
use console_calculator.Prelude.Int.{ℤ}
use console_calculator.Support.{Result, returned, thrown, undefined}
use console_calculator.Support.Exec.{lift, chain, continue, ◌>>◌}
use console_calculator.Core.{CalculatorData}
use console_calculator.Core.Checker.{check_arguments}
use console_calculator.Core.Abacus.{
  MathLib, MathError, map_math_error, finish_calculation, calculate_result,
}
use console_calculator.Storage.OperationKey.Kinds.{Kind, sum}
use console_calculator.Server.RequestHandler.Meaning.{admit, value_of, call, evaluate}
use console_calculator.Server.RequestHandler.Given.{given, calculate_result-given}

module _ (M : MathLib) where
  -- The two calls, and the result that they leave where both return.
  abbrev pub check_and_calculate : CalculatorData → Result ℤ
  check_and_calculate d =
      let (r, d') = (lift (check_arguments d) >> calculate_result M) d in
      chain r (λ _. returned d'.result)

  abbrev result_of : Result (Unit {0}) × CalculatorData → Result ℤ
  result_of (r, d) = chain r (λ _. returned d.result)

  result_of-continue :
      (r : Result (Unit {0})) (d : CalculatorData)
      → result_of (continue r (λ _. calculate_result M) d)
        ≡ chain r (λ _. result_of (calculate_result M d))
  result_of-continue (returned u) d = refl
  result_of-continue (thrown e) d = refl
  result_of-continue undefined d = refl

  finish_calculation-value_of :
      (d : CalculatorData) (o : MathError × ℤ) → result_of (finish_calculation M o d) ≡ value_of o
  unfolding map_math_error
  finish_calculation-value_of d (MathError.error_none, v) = refl
  finish_calculation-value_of d (_, v) = refl

  check_arguments-admit :
      (k : Kind) (a b : ℤ) → check_arguments (given k a (some b)) ≡ admit k a (some b)
  unfolding check_arguments
  check_arguments-admit sum a b = refl
  check_arguments-admit _ a b = refl

  -- For each of the six operations and any two operands: the checker and the calculator give the value of
  -- the library's function of that name on these operands, or throw just the exception of the refused
  -- operand or of the library's status, by a table of its own.
  pub check_and_calculate-evaluate :
      (k : Kind) (a b : ℤ) → check_and_calculate (given k a (some b)) ≡ evaluate M k a (some b)
  check_and_calculate-evaluate k a b =
      let finished = finish_calculation-value_of (given k a (some b)) (call M k a b) in
      let calculated : result_of (calculate_result M (given k a (some b)))
          ≡ value_of (call M k a b) =
        ap result_of (calculate_result-given M k a (some b)) ∙ finished in
      rw (check_arguments-admit k a b) (
        result_of-continue (admit k a (some b)) (given k a (some b))
        ∙ ap (λ (r : Result ℤ). chain (admit k a (some b)) (λ _. r)) calculated)
