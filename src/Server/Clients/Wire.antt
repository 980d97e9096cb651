-- ===== src/Server/Clients/Wire.antt =====
-- The texts that a session sends for its lines.
use console_calculator.Prelude.{◌≡◌, ◌≢◌, ℕ, List, [], ◌∷◌, ◌++◌}
use console_calculator.Text.{Text}
use console_calculator.Support.{returned, undefined}
use console_calculator.Core.Abacus.{MathLib}
use console_calculator.Server.OperationStorage.{OperationStorage, IsReliable}
use console_calculator.Server.ProtocolLib.{ProtocolLib, IsLawful}
use console_calculator.Server.RequestHandler.Meaning.{IsArithmetic}
use console_calculator.Server.RequestHandler.Right.{IsRight}
use console_calculator.Server.RequestHandler.Deserved.{deserved, Matches}
use console_calculator.Server.TcpJsonServer.{drop_return}

module _ {P : ProtocolLib} {M : MathLib} {st : OperationStorage} (lawful : IsLawful P)
    (reliable : IsReliable (IsRight M) st) (laws : IsArithmetic M)
    (total : (json : Text) → P.parse_request json ≢ undefined) (max_message_size : ℕ) where
  -- A text of the wire: a serialised response and a line feed, with the answer that the line deserves, if
  -- it deserves one.
  abbrev pub IsReply : Text → Text → Type 0
  IsReply line text =
      (response : P.Response) × (text ≡ P.serialize_response response ++ 10 ∷ [])
      × Matches lawful reliable laws (deserved P M (drop_return line)) (returned response)

  abbrev pub AreReplies : List Text → List Text → Type 0
  AreReplies [] [] = Unit {0}
  AreReplies (line ∷ lines) (text ∷ texts) = IsReply line text × AreReplies lines texts
  AreReplies _ _ = ⊥

  pub AreReplies-snoc :
      (lines texts : List Text) (line text : Text)
      → AreReplies lines texts
      → IsReply line text
      → AreReplies (lines ++ line ∷ []) (texts ++ text ∷ [])
  AreReplies-snoc [] [] line text h r = (r, tt)
  AreReplies-snoc (l ∷ lines) (t ∷ texts) line text h r =
      (h.0, AreReplies-snoc lines texts line text h.1 r)
  AreReplies-snoc [] (t ∷ texts) line text h r = absurd h
  AreReplies-snoc (l ∷ lines) [] line text h r = absurd h
