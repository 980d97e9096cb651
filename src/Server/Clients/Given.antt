-- ===== src/Server/Clients/Given.antt =====
-- A handler that gives one reply, with which the events of a session stand for any call of the
-- handler.
use console_calculator.Prelude.{
  ◌≡◌, ◌≢◌, ℕ, Option, none, some, List, [], ◌∷◌, ◌++◌, Bool-cases, inl, inr, if◌then◌else◌,
}
use console_calculator.Text.{Text, ◌===◌}
use console_calculator.Text.Equality.{===_iff}
use console_calculator.Support.{returned, undefined}
use console_calculator.Support.Exec.{Exec}
use console_calculator.Core.Abacus.{MathLib}
use console_calculator.Server.OperationStorage.{OperationStorage, IsReliable}
use console_calculator.Server.ProtocolLib.{ProtocolLib, IsLawful}
use console_calculator.Server.RequestHandler.Meaning.{IsArithmetic}
use console_calculator.Server.RequestHandler.Right.{IsRight}
use console_calculator.Server.TcpJsonServer.{drop_return}
use console_calculator.Server.TcpJsonServer.Framing.{Answered, none_yet, one_more}
use console_calculator.Server.Clients.Wire.{IsReply, AreReplies, AreReplies-snoc}
use console_calculator.Server.Clients.{answer}

module _ {P : ProtocolLib} {M : MathLib} {st : OperationStorage} (lawful : IsLawful P)
    (reliable : IsReliable (IsRight M) st) (laws : IsArithmetic M)
    (total : (json : Text) → P.parse_request json ≢ undefined) (max_message_size : ℕ) where
  -- A reply to one line, or none.
  abbrev pub Reply : Type 0
  Reply = Option (
      (line : Text) × (response : Text) × IsReply lawful reliable laws total max_message_size line
        (response ++ 10 ∷ []))

  -- A handler that gives this reply.
  abbrev pub given_reply : Text → Exec Reply Text
  given_reply json none = (undefined, none)
  given_reply json (some (line, response, is_reply)) = (
    if json === drop_return line then returned response else undefined,
    some (line, response, is_reply),
  )

  pub given-IsReply :
      (line response : Text) (reply : Reply)
      → (given_reply (drop_return line) reply).0 ≡ returned response
      → IsReply lawful reliable laws total max_message_size line (response ++ 10 ∷ [])
  given-IsReply line response none e = absurd (cc e)
  given-IsReply line response (some (l, r, (answer, wire, matched))) e =
      elim (Bool-cases (drop_return line === drop_return l)) [
        | inr other ↦ absurd (cc (rw other at e))
        | inl same ↦
            let lines : drop_return line ≡ drop_return l =
              (===_iff (drop_return line) (drop_return l)).0 same in
            let texts : returned r ≡ returned response = rw same at e in
            (answer, cc (wire, texts), rw lines matched)
      ]

  pub Answered-AreReplies :
      (lines texts : List Text)
      → Answered given_reply max_message_size lines texts
      → AreReplies lawful reliable laws total max_message_size lines texts
  Answered-AreReplies _ _ none_yet = tt
  Answered-AreReplies _ _ (one_more {lines} {responses} line response s answered e) =
      AreReplies-snoc lawful reliable laws total max_message_size lines responses line
        (response ++ 10 ∷ []) (Answered-AreReplies lines responses answered)
        (given-IsReply line response s e)
