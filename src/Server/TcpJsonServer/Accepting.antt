-- ===== src/Server/TcpJsonServer/Accepting.antt =====
-- `TcpJsonServer::do_accept` and its handler, between `start` and `stop`. The first half of `stop` clears
-- the flag, the second stops the context and joins; a handler may run between the two.
use console_calculator.Prelude.{
  ℕ, suc, ◌+◌, ◌≡◌, ◌≢◌, sym, subst, Bool, true, false, List, [], ◌∷◌, arith, if◌then◌else◌,
  Bool-cases, inl, inr,
}
use console_calculator.Text.{Text, codes}
use console_calculator.Support.{Result, returned, thrown, undefined, std_exception}
use console_calculator.Support.Exec.{Exec}
use console_calculator.Server.ServerConfig.{ServerConfig}
use console_calculator.Server.TcpJsonServer.Lifecycle.{
  TcpJsonServer, start_running, accept_and_work, thread_count,
}
use console_calculator.Server.TcpJsonServer.Lifecycle

-- What an accept gives to its handler: a socket, or an error.
pub data Accepted : Type 0 where
  connected aborted failed : Accepted

abbrev pub connections : List Accepted → ℕ
connections [] = 0
connections (connected ∷ outcomes) = suc (connections outcomes)
connections (_ ∷ outcomes) = connections outcomes

module _ {Network : Type 0} (listen_at : Text → ℕ → Exec Network ℕ) where
  -- The server with the sessions that it has started, the failures that it has logged, and a `stop` that
  -- is between its halves.
  pub record Acceptor : Type 0 where
    pub server : TcpJsonServer listen_at
    pub sessions : ℕ
    pub warnings : ℕ
    pub is_stopping : Bool

  -- The constructor, for a handler that is not null.
  unfoldable pub make_server : ServerConfig → Network → Bool → Result Acceptor
  make_server config n has_handler =
      if has_handler
      then returned (record {
        server = record {
          config = config;
          running = false;
          bound_port = 0;
          accepting = false;
          workers = 0;
          is_context_stopped = false;
          network = n;
        };
        sessions = 0;
        warnings = 0;
        is_stopping = false;
      })
      else thrown (std_exception (codes "request_handler must not be null"))

  -- The outcome is used up, and `do_accept` asks for the next.
  abbrev pub handled : Accepted → Acceptor → Acceptor
  handled connected v = record v { sessions = v.sessions + 1 }
  handled aborted v = v
  handled failed v = record v { warnings = v.warnings + 1 }

  unfoldable pub on_accept : Accepted → Acceptor → Acceptor
  on_accept outcome v =
      if v.server.running
      then (let v' = handled outcome v in
          record v' { server = record (v'.server) { accepting = true } })
      else record v { server = record (v.server) { accepting = false } }

  unfoldable pub start_accepting : Acceptor → Acceptor
  start_accepting v = record v { server = (Lifecycle.start listen_at v.server).1 }

  unfoldable pub begin_stop : Acceptor → Acceptor
  begin_stop v =
      if v.server.running
      then record v { server = record (v.server) { running = false }; is_stopping = true }
      else v

  unfoldable pub end_stop : Acceptor → Acceptor
  end_stop v = record v {
    server = record (v.server) { is_context_stopped = true; workers = 0 };
    is_stopping = false;
  }

  -- From the construction; the list holds the outcomes of the accepts so far. A start during a stop
  -- and a start on a server whose context was stopped are left out.
  pub data Reaches (u : Acceptor) : List Accepted → Acceptor → Type 0 where
    begin : Reaches u [] u
    starts :
        {outcomes : List Accepted} {v : Acceptor}
        → Reaches u outcomes v
        → v.server.workers ≡ 0
        → v.server.is_context_stopped ≡ false
        → v.is_stopping ≡ false
        → Reaches u outcomes (start_accepting v)
    accepts :
        {outcomes : List Accepted} {v : Acceptor} (outcome : Accepted)
        → Reaches u outcomes v
        → v.server.workers ≢ 0
        → v.server.accepting ≡ true
        → Reaches u (outcome ∷ outcomes) (on_accept outcome v)
    stop_begins :
        {outcomes : List Accepted} {v : Acceptor}
        → Reaches u outcomes v
        → Reaches u outcomes (begin_stop v)
    stop_ends :
        {outcomes : List Accepted} {v : Acceptor}
        → Reaches u outcomes v
        → v.is_stopping ≡ true
        → Reaches u outcomes (end_stop v)

  -- A running server with workers accepts, and has a session for each connection; one that has had no
  -- workers yet has no session.
  pub record Accepts (outcomes : List Accepted) (v : Acceptor) : Type 0 where
    pub goes_on : v.server.running ≡ true → v.server.workers ≢ 0 → v.server.accepting ≡ true
    pub serves_all :
        v.server.running ≡ true → v.server.workers ≢ 0 → v.sessions ≡ connections outcomes
    pub not_yet :
        v.server.workers ≡ 0
        → v.server.is_context_stopped ≡ false
        → (v.sessions ≡ 0) × (connections outcomes ≡ 0)
    pub stops : v.is_stopping ≡ true → v.server.running ≡ false

  on_accept-Accepts :
      (outcome : Accepted) (outcomes : List Accepted) (v : Acceptor)
      → v.server.workers ≢ 0
      → Accepts outcomes v
      → Accepts (outcome ∷ outcomes) (on_accept outcome v)
  unfolding on_accept
  on_accept-Accepts connected outcomes v busy h = ground (arith, h)
  on_accept-Accepts aborted outcomes v busy h = ground (arith, h)
  on_accept-Accepts failed outcomes v busy h = ground (arith, h)

  accept_and_work-Accepts :
      (outcomes : List Accepted) (v : Acceptor) (out : Result ℕ × Network)
      → v.server.workers ≡ 0
      → v.server.is_context_stopped ≡ false
      → v.server.running ≡ false
      → v.is_stopping ≡ false
      → Accepts outcomes v
      → let t = (accept_and_work listen_at (record (v.server) { running = true }) out).1 in
        Accepts outcomes (record v { server = t })
  accept_and_work-Accepts outcomes v (returned port, n) idle fresh rests alone h = ground (arith, h)
  accept_and_work-Accepts outcomes v (thrown e, n) idle fresh rests alone h = ground (arith, h)
  accept_and_work-Accepts outcomes v (undefined, n) idle fresh rests alone h = ground (arith, h)

  start_accepting-Accepts :
      (outcomes : List Accepted) (v : Acceptor)
      → v.server.workers ≡ 0
      → v.server.is_context_stopped ≡ false
      → v.is_stopping ≡ false
      → Accepts outcomes v
      → Accepts outcomes (start_accepting v)
  unfolding start_accepting Lifecycle.start
  start_accepting-Accepts outcomes v idle fresh alone h = elim (Bool-cases v.server.running) [
    | inl runs ↦
        let same : start_accepting v ≡ v = rw (start_running listen_at v.server runs) in
        subst (Accepts outcomes) (sym same) h
    | inr rests ↦ rw rests (
        accept_and_work-Accepts outcomes v
          (listen_at v.server.config.host v.server.config.port v.server.network) idle fresh rests
          alone h)
  ]

  begin_stop-Accepts :
      (outcomes : List Accepted) (v : Acceptor)
      → Accepts outcomes v
      → Accepts outcomes (begin_stop v)
  unfolding begin_stop
  begin_stop-Accepts outcomes v h = ground (arith, h)

  end_stop-Accepts :
      (outcomes : List Accepted) (v : Acceptor)
      → v.is_stopping ≡ true
      → Accepts outcomes v
      → Accepts outcomes (end_stop v)
  unfolding end_stop
  end_stop-Accepts outcomes v stopping h = ground (arith, h)

  Reaches_invariant :
      (u : Acceptor) (outcomes : List Accepted) (v : Acceptor)
      → Accepts [] u
      → Reaches u outcomes v
      → Accepts outcomes v
  Reaches_invariant u _ _ h begin = h
  Reaches_invariant u _ _ h (starts {outcomes} {v} reached idle fresh alone) =
      start_accepting-Accepts outcomes v idle fresh alone (Reaches_invariant u outcomes v h reached)
  Reaches_invariant u _ _ h (accepts {outcomes} {v} outcome reached busy waits) =
      on_accept-Accepts outcome outcomes v busy (Reaches_invariant u outcomes v h reached)
  Reaches_invariant u _ _ h (stop_begins {outcomes} {v} reached) =
      begin_stop-Accepts outcomes v (Reaches_invariant u outcomes v h reached)
  Reaches_invariant u _ _ h (stop_ends {outcomes} {v} reached stopping) =
      end_stop-Accepts outcomes v stopping (Reaches_invariant u outcomes v h reached)

  -- The two halves of `stop` are the whole.
  end_stop-begin_stop :
      (v : Acceptor)
      → v.server.running ≡ true
      → (end_stop (begin_stop v)).server ≡ Lifecycle.stop listen_at v.server
  unfolding begin_stop end_stop Lifecycle.stop
  end_stop-begin_stop v runs = ground arith

  make_server-Accepts :
      (config : ServerConfig) (n : Network) (u : Acceptor)
      → make_server config n true ≡ returned u
      → Accepts [] u
  unfolding make_server
  make_server-Accepts config n u e = ground (arith, e)

  -- From its construction on, through its starts, the outcomes of its accepts and its stop in any order, a
  -- server that runs and has workers waits for the next connection, whatever errors came, and has started
  -- a session for each connection that it was given.
  pub Reaches-connections :
      (config : ServerConfig) (n : Network) (u : Acceptor) (outcomes : List Accepted) (v : Acceptor)
      → make_server config n true ≡ returned u
      → Reaches u outcomes v
      → v.server.running ≡ true
      → v.server.workers ≢ 0
      → (v.server.accepting ≡ true) × (v.sessions ≡ connections outcomes)
  Reaches-connections config n u outcomes v made reached runs busy =
      let h = Reaches_invariant u outcomes v (make_server-Accepts config n u made) reached in
      (h.goes_on runs busy, h.serves_all runs busy)
