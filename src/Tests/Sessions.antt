-- ===== src/Tests/Sessions.antt =====
-- A session whose request comes in two chunks.
use console_calculator.Prelude.{ℕ, ◌≡◌, refl, false, []}
use console_calculator.Text.{Text, codes}
use console_calculator.Support.{returned, thrown, std_exception}
use console_calculator.Support.Exec.{Exec}
use console_calculator.Server.TcpJsonServer.{
  Session, Place, writing, opened, close, split_line, drop_return, on_read, Reaches, start, receive,
  read,
}
use console_calculator.Server.ServerConfig.{initial_config}
use console_calculator.Server.TcpJsonServer.Lifecycle
use console_calculator.Server.TcpJsonServer.Lifecycle.{TcpJsonServer, start_after_failure}
use console_calculator.Server.TcpJsonServer.Framing.{Serves, Reaches-Serves}

-- A handler that answers with the request.
abbrev echo : Text → Exec (Unit {0}) Text
echo request s = (returned request, s)

abbrev half_way : Session
half_way = record { place = writing (codes "ab\n"); buffer = codes "c"; sent = [] }

half_way-Reaches : Reaches echo 8 (codes "ab\r\nc") half_way
unfolding on_read split_line drop_return
half_way-Reaches =
    read (codes "ab\r") (codes "c") tt (receive (codes "b\r\nc") (receive (codes "a") start)) refl
      refl refl

-- The line is longer than the limit.
refused :
    (on_read echo 2 (codes "ab") [] opened tt).0 ≡ returned (record opened { place = Place.closed })
unfolding on_read close
refused = refl

Reaches-Serves_example : Serves echo 8 (codes "ab\r\nc") half_way
Reaches-Serves_example = Reaches-Serves echo 8 (codes "ab\r\nc") half_way half_way-Reaches cc

-- A network on which every port is taken.
abbrev taken : Text → ℕ → Exec (Unit {0}) ℕ
taken host port n = (thrown (std_exception (codes "bind")), n)

abbrev unstarted : TcpJsonServer taken
unstarted = record {
  config = initial_config;
  running = false;
  bound_port = 0;
  accepting = false;
  workers = 0;
  is_context_stopped = false;
  network = tt;
}

start_after_failure_example :
    let v = record (Lifecycle.start taken unstarted).1 { network = tt } in
    (Lifecycle.start taken v ≡ (returned tt, v)) × (v.workers ≡ 0) × (v.accepting ≡ false)
unfolding Lifecycle.start
start_after_failure_example =
    start_after_failure taken unstarted (std_exception (codes "bind")) tt refl
