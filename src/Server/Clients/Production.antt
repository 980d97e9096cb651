-- ===== src/Server/Clients/Production.antt =====
-- The server as it runs: a session, the handler, the storage worker and the database, in one life of the
-- program after others.
use console_calculator.Prelude.{◌≡◌, ◌≢◌, ℕ, true, List, ◌++◌, All}
use console_calculator.Text.{Text}
use console_calculator.Support.{undefined}
use console_calculator.Core.Abacus.{MathLib}
use console_calculator.Storage.Postgres.{Libpq}
use console_calculator.Storage.Postgres.HistoryTable.{IsHistoryTable}
use console_calculator.Storage.StorageService.{initialize}
use console_calculator.Storage.StorageService.Restart.{fresh}
use console_calculator.Storage.StorageService.Kept.{HoldsAccepted}
use console_calculator.Server.ProtocolLib.{ProtocolLib, IsLawful}
use console_calculator.Server.RequestHandler.Meaning.{IsArithmetic}
use console_calculator.Server.RequestHandler.Right.{IsRight}
use console_calculator.Server.StorageWorker.{worker_storage}
use console_calculator.Server.StorageWorker.Lives.{
  Life, after_lives, StartUp, worker_storage-IsReliable, initialize-IsSound, lives-HoldsAccepted,
}
use console_calculator.Server.TcpJsonServer.{closed}
use console_calculator.Server.TcpJsonServer.Framing.{joined, in_flight, IsLine}
use console_calculator.Server.Clients.{Exchange, Overlaps}
use console_calculator.Server.Clients.Wire.{AreReplies}
use console_calculator.Server.Clients.Replies.{Overlaps-AreReplies}

module _ {L : Libpq} (T : IsHistoryTable L) {P : ProtocolLib} {M : MathLib} (lawful : IsLawful P)
    (laws : IsArithmetic M) (total : (json : Text) → P.parse_request json ≢ undefined)
    (max_message_size : ℕ) where
  -- Given a protocol library that is lawful and whose parser has no undefined behaviour, a library
  -- whose sums and products do not depend on the order of the operands and whose values fit `int`,
  -- and a database that is a history table of right records: after any lives of the program on it,
  -- whose connections are up when they start, let a life start with its connection up, and a session
  -- receive bytes in chunks while the requests of other sessions arrive and finish at any time.
  -- Until the session closes, what it received is lines within the limit and what is in its buffer,
  -- and the texts that it has sent or is sending are the replies to these lines, one for each, in
  -- their order, with the answer that the line deserves where it deserves one.
  pub AreReplies-after_lives :
      (lives : List (Life L T P M)) (w : L.World) (c : L.Conn) (received : Text)
      (x : Exchange P M (worker_storage L))
      → HoldsAccepted T (IsRight M) w
      → StartUp L T P M lives w
      → L.is_status_ok c (after_lives L T P M lives w) ≡ true
      → Overlaps P M
          (worker_storage L)
          max_message_size
          (initialize L (fresh L T c (after_lives L T P M lives w))).1
          received
          x
      → x.session.place ≢ closed
      → (lines : List Text) × (received ≡ joined lines ++ x.session.buffer)
        × All (IsLine max_message_size) lines
        × AreReplies lawful
            (worker_storage-IsReliable T M)
            laws
            total
            max_message_size
            lines
            (x.session.sent ++ in_flight x.session.place)
  AreReplies-after_lives lives w c received x holds up_before up talk is_open =
      let w' = after_lives L T P M lives w in
      Overlaps-AreReplies lawful (worker_storage-IsReliable T M) laws total max_message_size
        (initialize L (fresh L T c w')).1 received x
        (initialize-IsSound T M c w' up
          (lives-HoldsAccepted T lawful laws total lives w up_before holds))
        talk is_open
