-- ===== src/Server/RequestHandler/Honest/AnyText.antt =====
-- Any text at all keeps the records honest.
use console_calculator.Prelude.{sym, subst, inl, inr}
use console_calculator.Text.{Text}
use console_calculator.Support.{Result}
use console_calculator.Core.{CalculatorData}
use console_calculator.Core.Checker.{check_arguments}
use console_calculator.Core.Abacus.{MathLib}
use console_calculator.Server.OperationStorage.{OperationStorage, IsCache}
use console_calculator.Server.ProtocolLib.{ProtocolLib, IsLawful}
use console_calculator.Server.RequestHandler.Handle.{respond}
use console_calculator.Server.RequestHandler.Meaning.{second_of, IsArithmetic}
use console_calculator.Server.RequestHandler.Phases.{
  open_request, finish_request, finish_opening, Opening, finished, missed,
  finish_opening-open_request,
}
use console_calculator.Server.RequestHandler.Phases.Opened.{
  HasKey, HasKey-IsAsked, HasKey-given, IsOver, open_request-IsOpened,
}
use console_calculator.Server.RequestHandler.Honest.{HoldsHonest}
use console_calculator.Server.RequestHandler.Honest.Calls.{missed-IsTrue}

module _ {P : ProtocolLib} {M : MathLib} {st : OperationStorage} (lawful : IsLawful P)
    (cache : IsCache st) (laws : IsArithmetic M) where
  finish_request-HoldsHonest :
      (request : P.Request) (d : CalculatorData) (operation : Text) (s : st.State)
      → HasKey P request d operation
      → HoldsHonest M cache s
      → HoldsHonest M cache (finish_request P M st request d operation s).1
  unfolding finish_request check_arguments
  finish_request-HoldsHonest request d operation s has_key holds =
      elim (HasKey-IsAsked P request d operation has_key) [
        | inl (k, a, rest, is_k, are_operands, fits) ↦
            let (same, name, (key, keyed)) =
              HasKey-given P request k a rest d operation is_k are_operands fits has_key in
            rw (same, name)
              (missed-IsTrue lawful cache laws (P.request_id request) k a (second_of rest) s holds
                fits keyed).1
        | inr same ↦ rw same holds
      ]

  over-HoldsHonest :
      (s : st.State) (out : Opening P × st.State)
      → IsOver P M st cache.view cache.find_lem s out
      → HoldsHonest M cache s
      → HoldsHonest M cache (finish_opening P M st out).1
  over-HoldsHonest s (finished r, s') over holds = subst (HoldsHonest M cache) (sym over) holds
  over-HoldsHonest s (missed request d operation, s') over holds = absurd over

  pub respond-HoldsHonest :
      (json : Text) (s : st.State)
      → HoldsHonest M cache s
      → HoldsHonest M cache (respond P M st json s).1
  respond-HoldsHonest json s holds =
      let whole = finish_opening-open_request P M st json s in
      let after : HoldsHonest M cache (finish_opening P M st (open_request P M st json s)).1 =
        elim (open_request-IsOpened P M st cache.view cache.find_lem json s) [
          | inl over ↦ over-HoldsHonest s (open_request P M st json s) over holds
          | inr (request, d, operation, parsed, e, has_key) ↦
              rw e (finish_request-HoldsHonest request d operation s has_key holds)
        ] in
      subst (λ (out : Result P.Response × st.State). HoldsHonest M cache out.1) whole after
