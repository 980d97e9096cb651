-- ===== src/Server/TcpJsonServer.antt =====
-- server/src/tcp-json-server.cpp: one session. The bytes that arrive, the ends of writes and the errors of
-- the socket come from outside, in any order that the calls of the session allow.
pub mod Framing
pub mod Lifecycle
pub mod Accepting
use console_calculator.Prelude.{
  ℕ, suc, ◌≡◌, Bool, true, false, Option, none, some, List, [], ◌∷◌, ◌++◌, ◌==◌, if◌then◌else◌, ltb,
  length,
}
use console_calculator.Text.{Text}
use console_calculator.Support.{Result, returned, thrown, undefined}
use console_calculator.Support.Exec.{Exec}

-- What the session waits for. A write in flight holds its text.
pub data Place : Type 0 where
  reading closed : Place
  writing : Text → Place

pub record Session : Type 0 where
  pub place : Place
  pub buffer : Text
  pub sent : List Text

abbrev pub opened : Session
opened = record { place = reading; buffer = []; sent = [] }

-- What stands before and behind the first line feed.
unfoldable pub split_line : Text → Option (Text × Text)
split_line [] = none
split_line (c ∷ s) =
    let rest = split_line s in
    if c == 10
    then some ([], s)
    else (elim rest [ none ↦ none | some (line, behind) ↦ some (c ∷ line, behind) ])

-- `if (!request.empty() && request.back() == '\r') request.pop_back();`
unfoldable pub drop_return : Text → Text
drop_return [] = []
drop_return (c ∷ []) = if c == 13 then [] else c ∷ []
drop_return (c ∷ d ∷ s) = c ∷ drop_return (d ∷ s)

unfoldable pub close : Session → Session
close v = record v { place = closed }

-- The response with its line feed goes out, and the next read waits for that.
abbrev pub write_answer : Session → Text → Result Text → Result Session
write_answer v rest (returned response) =
    returned (record v { place = writing (response ++ 10 ∷ []); buffer = rest })
write_answer v rest (thrown e) = thrown e
write_answer v rest undefined = undefined

-- The handler of requests, with the state that it shares with the other sessions.
module _ {S : Type 0} (handle : Text → Exec S Text) (max_message_size : ℕ) where
  -- `on_read` without an error, for a buffer that holds `line`, a line feed and `rest`: the number of
  -- bytes that the read reports is that of the line and its line feed.
  unfoldable pub on_read : Text → Text → Session → Exec S Session
  on_read line rest v s =
      if ltb max_message_size (suc (length line))
      then (returned (close v), s)
      else (let (answer, s') = handle (drop_return line) s in (write_answer v rest answer, s'))

  -- A session that has received these bytes so far. The state of the handler at each read is that which
  -- all sessions together have made.
  pub data Reaches : Text → Session → Type 0 where
    start : Reaches [] opened
    receive :
        {received : Text} {v : Session} (chunk : Text)
        → Reaches received v
        → Reaches (received ++ chunk) (record v { buffer = v.buffer ++ chunk })
    read :
        {received : Text} {v v' : Session} (line rest : Text) (s : S)
        → Reaches received v
        → v.place ≡ reading
        → split_line v.buffer ≡ some (line, rest)
        → (on_read line rest v s).0 ≡ returned v'
        → Reaches received v'
    read_error :
        {received : Text} {v : Session}
        → Reaches received v
        → v.place ≡ reading
        → Reaches received (record v { place = closed })
    wrote :
        {received : Text} {v : Session} (text : Text)
        → Reaches received v
        → v.place ≡ writing text
        → Reaches received (record v { place = reading; sent = v.sent ++ text ∷ [] })
    write_error :
        {received : Text} {v : Session} (text : Text)
        → Reaches received v
        → v.place ≡ writing text
        → Reaches received (record v { place = closed })
