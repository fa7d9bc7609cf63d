-- ===== src/Network/Generic/Timeouts.antt =====
-- `GenericClient::on_timeout`: which servers stay connected, and what the socket waits for next.
use syfala_test.Common.{
  ℕ, suc, ◌+◌, ◌<◌, ◌≤◌, ◌≡◌, refl, ap, sym, ◌∙◌, done, ◌==◌, Option, none, some, Option-cases,
  Bool-cases, inl, inr, arith, ◌⊎◌, List, [], ◌∷◌,
}
use syfala_test.Network.Context.{Context}
use syfala_test.Network.Deadlines.{DeadlineQueue}
use syfala_test.Network.ServerMap.{ServerMap, get, is_some}
use syfala_test.Network.Socket.{Sock, Packet, IoResult, ok, err, ErrorKind}
use syfala_test.Network.IoState.{ServerIoState, Handled}
use syfala_test.Network.Expire.{next_timeout, request_poll_period}
use syfala_test.Network.Expire.Overdue.{Expired, alive, expire-Expired, next_timeout-bounds}
use syfala_test.Network.Poll.{Polled, poll_one, poll_all, poll_rest}
use syfala_test.Network.Generic.{
  Session, on_timeout, finish, set_timeout, with_log, with_servers, with_deadlines,
}
use syfala_test.Network.Generic.InStep.{IsInStep}

module _ (cb : Context) (sock : Sock) where
  -- Polling the application neither connects nor drops a server.
  rest-keeps :
      (rest : cb.Cx → List Packet → Polled cb) (b : ℕ) (state : ServerIoState cb)
      (servers : ServerMap (ServerIoState cb)) (a : ℕ)
      → ((cx : cb.Cx) (log : List Packet)
          → is_some (get a (rest cx log).0) ≡ is_some (get a servers))
      → (handled : Handled cb)
      → is_some (get a (poll_rest cb sock rest b servers handled).0)
        ≡ is_some (get a ((b, state) ∷ servers))
  unfolding get
  rest-keeps rest b state servers a keeps (state', cx, log, ok) = elim (Bool-cases (a == b)) [
    | inl e ↦ rw (e) refl
    | inr e ↦ rw (e) (keeps cx log)
  ]
  rest-keeps rest b state servers a keeps (state', cx, log, err e') = elim (Bool-cases (a == b)) [
    | inl e ↦ rw (e) refl
    | inr e ↦ rw (e) refl
  ]

  poll_all-keeps :
      (servers : ServerMap (ServerIoState cb)) (cx : cb.Cx) (log : List Packet) (a : ℕ)
      → is_some (get a (poll_all cb sock servers cx log).0) ≡ is_some (get a servers)
  unfolding poll_all
  poll_all-keeps [] cx log a = refl
  poll_all-keeps ((b, state) ∷ servers) cx log a =
      rest-keeps (poll_all cb sock servers) b state servers a
        (λ cx' log'. poll_all-keeps servers cx' log' a) (poll_one cb sock b state cx log)

module _ (cb : Context) (pq : DeadlineQueue) (sock : Sock) where
  -- The end of the method only touches the receive timeout.
  record Finished (now : ℕ) (s s' : Session cb pq) (r : IoResult) : Type 0 where
    pub servers : s'.servers ≡ s.servers
    pub deadlines : s'.deadlines ≡ s.deadlines
    pub waits : r ≡ ok → s'.recv_timeout ≡ next_timeout pq now s.deadlines

  ok≢err : (e : ErrorKind) → ¬ (err e ≡ ok)
  ok≢err e p = cc

  set_timeout-Finished :
      (now : ℕ) (s : Session cb pq) (result : IoResult)
      → let out = set_timeout cb pq sock s (next_timeout pq now s.deadlines) result in
        Finished now s out.0 out.1
  set_timeout-Finished now s ok = record { servers = refl; deadlines = refl; waits = λ _. refl }
  set_timeout-Finished now s (err e) = record {
    servers = refl;
    deadlines = refl;
    waits = λ p. absurd (ok≢err e p);
  }

  finish-Finished :
      (now : ℕ) (s : Session cb pq) (result : IoResult)
      → Finished now s (finish cb pq sock now s result).0 (finish cb pq sock now s result).1
  finish-Finished now s ok =
      set_timeout-Finished now s (sock.set_recv_timeout (next_timeout pq now s.deadlines))
  finish-Finished now s (err e) = record {
    servers = refl;
    deadlines = refl;
    waits = λ p. absurd (ok≢err e p);
  }

  -- The receive timeout is none if there is no deadline, and else in time for all of them.
  abbrev pub Waits : ℕ → pq.Queue → Option ℕ → Type 0
  Waits now q timeout =
      ((pq.peek q ≡ none) × (timeout ≡ none))
      ⊎ ((a t d : ℕ) × (pq.peek q ≡ some (a, t))
          × (timeout ≡ some d)
          × (0 < d)
          × (d ≤ request_poll_period)
          × (now + d ≤ t))

  next_timeout-none : (now : ℕ) (q : pq.Queue) → pq.peek q ≡ none → next_timeout pq now q ≡ none
  unfolding next_timeout
  next_timeout-none now q e = rw e

  next_timeout-Waits :
      (now : ℕ) (servers servers' : ServerMap (ServerIoState cb)) (q q' : pq.Queue)
      → Expired pq now servers q servers' q'
      → Waits now q' (next_timeout pq now q')
  next_timeout-Waits now servers servers' q q' e = elim (Option-cases (pq.peek q')) [
    | inl nothing ↦ inl (nothing, next_timeout-none now q' nothing)
    | inr ((a, t), first) ↦
        let (d, at, above, below, in_time) =
          next_timeout-bounds pq now a t servers q servers' q' e first in
        inr (a, t, d, first, at, above, below, in_time)
  ]

  -- On a client whose deadlines are those of its connected servers, `on_timeout` does not panic, and
  -- its loop ends. Afterwards the deadlines are those of the connected servers, and they are exactly
  -- the former ones that are later than `now`, whether or not a send fails on the way. If all went
  -- well, the receive timeout is none if no server is connected, and else above zero, at most the
  -- polling period, and not past the earliest deadline.
  pub on_timeout_drops_overdue :
      (now : ℕ) (s : Session cb pq)
      → IsInStep cb pq s
      → (s' : Session cb pq) × (r : IoResult) × (on_timeout cb pq sock now s ≡ done (s', r))
        × IsInStep cb pq s'
        × ((a : ℕ) → pq.get_priority a s'.deadlines ≡ alive now (pq.get_priority a s.deadlines))
        × (r ≡ ok → Waits now s'.deadlines s'.recv_timeout)
  unfolding on_timeout
  on_timeout_drops_overdue now s h =
      let (servers, q, run, e) =
        expire-Expired pq now (suc (pq.size s.deadlines)) s.servers s.deadlines h (omega arith) in
      let (servers', cx, log, result) = poll_all cb sock servers s.callbacks s.log in
      let keeps = poll_all-keeps cb sock servers s.callbacks s.log in
      let polled : Session cb pq = with_log (with_deadlines (with_servers s servers' cx) q) log in
      let f = finish-Finished now polled result in
      let (s', r) = finish cb pq sock now polled result in
      (
        s',
        r,
        rw run,
        λ a.
            ap (λ m. is_some (get a m)) f.servers
            ∙ keeps a
            ∙ e.in_step a
            ∙ ap (λ d. is_some (pq.get_priority a d)) (sym f.deadlines),
        λ a. ap (pq.get_priority a) f.deadlines ∙ e.deadlines a,
        λ good.
            rw (f.waits good, f.deadlines)
              (next_timeout-Waits now s.servers servers s.deadlines q e),
      )
