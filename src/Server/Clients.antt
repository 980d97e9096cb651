-- ===== src/Server/Clients.antt =====
-- One session of the TCP server whose call of the handler overlaps with those of the others:
-- between the look-up of its request and its end, other requests arrive and finish on the same
-- storage: server/src/tcp-json-server.cpp over server/src/request-handler.cpp.
pub mod Alone
pub mod Wire
pub mod Given
pub mod Replies
pub mod Production
use console_calculator.Prelude.{
  ◌≡◌, ◌≤◌, ◌<◌, ℕ, suc, Option, none, some, List, [], ◌∷◌, ◌++◌, length,
}
use console_calculator.Prelude.Int.{ℤ}
use console_calculator.Text.{Text}
use console_calculator.Support.{Result, returned}
use console_calculator.Core.Abacus.{MathLib}
use console_calculator.Server.OperationStorage.{OperationStorage}
use console_calculator.Server.ProtocolLib.{ProtocolLib}
use console_calculator.Server.RequestHandler.{make_timing}
use console_calculator.Server.RequestHandler.Phases.{Opening, open_request, finish_opening}
use console_calculator.Server.RequestHandler.Phases.Interleaved.{Requests, arrive, finish}
use console_calculator.Server.TcpJsonServer.{
  Session, opened, reading, closed, writing, split_line, drop_return, close,
}

module _ (P : ProtocolLib) (M : MathLib) (st : OperationStorage) where
  -- The session, the line that it is handling, with what its look-up left, and the requests of the other
  -- sessions with the storage. A line stands in the buffer until it is answered.
  pub record Exchange : Type 0 where
    pub session : Session
    pub handling : Option (Text × Opening P)
    pub others : Requests P M st

  -- The session reads a line within the limit, and its request is looked up.
  unfoldable pub ask : Text → Exchange → Exchange
  ask line x =
      let (o, s) = open_request P M st (drop_return line) x.others.storage in
      record x { handling = some (line, o); others = record (x.others) { storage = s } }

  -- Its response goes out, with the clock readings of the call.
  unfoldable pub answer : ℤ → ℤ → Text → Opening P → P.Response → Exchange → Exchange
  answer started_at now rest o response x =
      let text = P.serialize_response (P.set_timing_info (make_timing started_at now) response) in
      record {
        session = record (x.session) { place = writing (text ++ 10 ∷ []); buffer = rest };
        handling = none;
        others = record (x.others) { storage = (finish_opening P M st (o, x.others.storage)).1 };
      }

  module _ (max_message_size : ℕ) where
    pub data Overlaps (s : st.State) : Text → Exchange → Type 0 where
      begins : Overlaps s [] (record {
        session = opened;
        handling = none;
        others = record { storage = s; in_flight = []; results = [] };
      })
      other_arrives :
          {received : Text} {x : Exchange} (json : Text)
          → Overlaps s received x
          → Overlaps s received (record x { others = arrive P M st json x.others })
      other_finishes :
          {received : Text} {x : Exchange} (before : List (Text × Opening P)) (json : Text)
          (o : Opening P) (behind : List (Text × Opening P))
          → Overlaps s received x
          → x.others.in_flight ≡ before ++ (json, o) ∷ behind
          → Overlaps s received (record x { others = finish P M st before json o behind x.others })
      receives :
          {received : Text} {x : Exchange} (chunk : Text)
          → Overlaps s received x
          → Overlaps s
              (received ++ chunk)
              (record x { session = record (x.session) { buffer = x.session.buffer ++ chunk } })
      asks :
          {received : Text} {x : Exchange} (line rest : Text)
          → Overlaps s received x
          → x.session.place ≡ reading
          → x.handling ≡ none
          → split_line x.session.buffer ≡ some (line, rest)
          → suc (length line) ≤ max_message_size
          → Overlaps s received (ask line x)
      answers :
          {received : Text} {x : Exchange} (started_at now : ℤ) (line rest : Text) (o : Opening P)
          (response : P.Response)
          → Overlaps s received x
          → x.handling ≡ some (line, o)
          → split_line x.session.buffer ≡ some (line, rest)
          → (finish_opening P M st (o, x.others.storage)).0 ≡ returned response
          → Overlaps s received (answer started_at now rest o response x)
      too_large :
          {received : Text} {x : Exchange} (line rest : Text)
          → Overlaps s received x
          → x.session.place ≡ reading
          → x.handling ≡ none
          → split_line x.session.buffer ≡ some (line, rest)
          → max_message_size < suc (length line)
          → Overlaps s received (record x { session = close x.session })
      read_fails :
          {received : Text} {x : Exchange}
          → Overlaps s received x
          → x.session.place ≡ reading
          → x.handling ≡ none
          → Overlaps s received (record x { session = record (x.session) { place = closed } })
      writes :
          {received : Text} {x : Exchange} (text : Text)
          → Overlaps s received x
          → x.session.place ≡ writing text
          → Overlaps s received (record x {
            session = record (x.session) { place = reading; sent = x.session.sent ++ text ∷ [] };
          })
      write_fails :
          {received : Text} {x : Exchange} (text : Text)
          → Overlaps s received x
          → x.session.place ≡ writing text
          → Overlaps s received (record x { session = record (x.session) { place = closed } })
