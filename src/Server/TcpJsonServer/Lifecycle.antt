-- ===== src/Server/TcpJsonServer/Lifecycle.antt =====
-- server/src/tcp-json-server.cpp: `TcpJsonServer::start` and `stop`. Making the address, opening, binding
-- and listening are one call of the network, a parameter, which gives the bound port or throws.
use console_calculator.Prelude.{
  ℕ, ◌+◌, ◌≡◌, refl, Bool, true, false, ◌==◌, if◌then◌else◌, Bool-cases, inl, inr,
}
use console_calculator.Prelude.Int.{ℤ, pos, negsuc}
use console_calculator.Text.{Text}
use console_calculator.Support.{Exception, Result, returned, thrown, undefined}
use console_calculator.Support.Exec.{Exec}
use console_calculator.Server.ServerConfig.{ServerConfig}

-- `std::max(1, config_.worker_threads())`
abbrev pub thread_count : ℤ → ℕ
thread_count (pos n) = if n == 0 then 1 else n
thread_count (negsuc n) = 1

module _ {Network : Type 0} (listen_at : Text → ℕ → Exec Network ℕ) where
  pub record TcpJsonServer : Type 0 where
    pub config : ServerConfig
    pub running : Bool
    pub bound_port : ℕ
    pub accepting : Bool
    pub workers : ℕ
    pub is_context_stopped : Bool
    pub network : Network

  -- The part of `start` behind `listen`.
  abbrev pub accept_and_work :
      TcpJsonServer → Result ℕ × Network → Result (Unit {0}) × TcpJsonServer
  accept_and_work v (returned port, n) = (
    returned tt,
    record v {
      bound_port = port;
      accepting = true;
      workers = v.workers + thread_count v.config.worker_threads;
      network = n;
    },
  )
  accept_and_work v (thrown e, n) = (thrown e, record v { network = n })
  accept_and_work v (undefined, n) = (undefined, record v { network = n })

  -- `running_` is set before anything can throw.
  unfoldable pub start : Exec TcpJsonServer (Unit {0})
  start v =
      if v.running
      then (returned tt, v)
      else accept_and_work (record v { running = true })
          (listen_at v.config.host v.config.port v.network)

  -- The context is stopped, and all workers are joined. The acceptor is closed by a job of the context,
  -- which the stop of the context may keep from running.
  unfoldable pub stop : TcpJsonServer → TcpJsonServer
  stop v =
      if v.running then record v { running = false; is_context_stopped = true; workers = 0 } else v

  pub start_running : (v : TcpJsonServer) → v.running ≡ true → start v ≡ (returned tt, v)
  unfolding start
  start_running v h = rw h

  accept_thrown :
      (v : TcpJsonServer) (e : Exception) (out : Result ℕ × Network)
      → (accept_and_work v out).0 ≡ thrown e
      → ((accept_and_work v out).1.running ≡ v.running)
        × ((accept_and_work v out).1.workers ≡ v.workers)
        × ((accept_and_work v out).1.accepting ≡ v.accepting)
  accept_thrown v e (returned port, n) h = cc
  accept_thrown v e (thrown x, n) h = (refl, refl, refl)
  accept_thrown v e (undefined, n) h = cc

  -- What an exception of `start` leaves.
  start_thrown :
      (v : TcpJsonServer) (e : Exception)
      → (start v).0 ≡ thrown e
      → ((start v).1.running ≡ true)
        × ((start v).1.workers ≡ v.workers)
        × ((start v).1.accepting ≡ v.accepting)
  unfolding start
  start_thrown v e h = elim (Bool-cases v.running) [
    | inl runs ↦ (let never : returned tt ≡ thrown e = rw runs at h in cc)
    | inr rests ↦ rw rests (
        accept_thrown (record v { running = true }) e
          (listen_at v.config.host v.config.port v.network) (rw rests at h))
  ]

  -- Where `start` throws, a second `start` returns without an error and changes nothing, whatever the
  -- network is like then: the server has no more workers than before and accepts no more than before.
  pub start_after_failure :
      (v : TcpJsonServer) (e : Exception) (n : Network)
      → (start v).0 ≡ thrown e
      → let v' = record (start v).1 { network = n } in
        (start v' ≡ (returned tt, v')) × (v'.workers ≡ v.workers) × (v'.accepting ≡ v.accepting)
  start_after_failure v e n h =
      let (runs, same, as_before) = start_thrown v e h in (start_running _ runs, same, as_before)
