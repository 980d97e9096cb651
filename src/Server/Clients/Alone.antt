-- ===== src/Server/Clients/Alone.antt =====
-- A session whose call of the handler no other call overlaps: on_read of
-- server/src/tcp-json-server.cpp with RequestHandler::handle in one step.
use console_calculator.Prelude.{◌≡◌, ◌≤◌, ℕ, suc, false, arith, ltb, length}
use console_calculator.Prelude.Int.{ℤ}
use console_calculator.Text.{Text}
use console_calculator.Support.{returned}
use console_calculator.Core.Abacus.{MathLib}
use console_calculator.Server.OperationStorage.{OperationStorage}
use console_calculator.Server.ProtocolLib.{ProtocolLib}
use console_calculator.Server.RequestHandler.Handle.{respond, handle}
use console_calculator.Server.RequestHandler.Phases.{open_request, finish_opening-open_request}
use console_calculator.Server.TcpJsonServer.{on_read, drop_return}
use console_calculator.Server.Clients.{Exchange, ask, answer}

module _ (P : ProtocolLib) (M : MathLib) (st : OperationStorage) (max_message_size : ℕ) where
  -- For a line within the limit that the handler answers with a response, to ask and then to answer is
  -- what on_read does with the handler in one step: the session and the storage are the same.
  pub answer-ask :
      (started_at now : ℤ) (line rest : Text) (x : Exchange P M st) (response : P.Response)
      → suc (length line) ≤ max_message_size
      → (respond P M st (drop_return line) x.others.storage).0 ≡ returned response
      → let o = (open_request P M st (drop_return line) x.others.storage).0 in
        let after = answer P M st started_at now rest o response (ask P M st line x) in
        on_read (handle P M st started_at now) max_message_size line rest x.session x.others.storage
        ≡ (returned after.session, after.others.storage)
  unfolding on_read handle ask answer
  answer-ask started_at now line rest x response fits e =
      let small : ltb max_message_size (suc (length line)) ≡ false = ground (arith, fits) in
      rw (small, e, finish_opening-open_request P M st (drop_return line) x.others.storage)
