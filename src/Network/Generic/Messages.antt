-- ===== src/Network/Generic/Messages.antt =====
-- `GenericClient::on_message` on a client in step, and what an error leaves.
use syfala_test.Common.{
  ℕ, ◌+◌, ◌≤◌, ◌≡◌, refl, sym, ◌∙◌, Outcome, done, panicked, ◌>>=◌, leb, true, Option, none, some,
  Option-cases, Bool-cases, inl, inr, arith, List, ==_self,
}
use syfala_test.Proto.Format.{StreamFormats}
use syfala_test.Proto.Message.{Client, Reply, Server}
use syfala_test.Network.Context.{Context}
use syfala_test.Network.Deadlines.{DeadlineQueue}
use syfala_test.Network.ServerMap.{
  get, insert, remove, is_some-true, is_some-false, contains_key, get-insert,
}
use syfala_test.Network.Socket.{Sock, IoResult, ok, err, ErrorKind, Packet, send_msg}
use syfala_test.Network.IoState.{inactive}
use syfala_test.Network.Expire.{conn_timeout}
use syfala_test.Network.Expire.Overdue.{remove-InStep}
use syfala_test.Network.Generic.{
  Session, reply_to, on_server_connect_request, on_disconnect, refresh, then_refresh, on_message,
}
use syfala_test.Network.Generic.InStep.{
  IsInStep, Near, WentWell, push-InStep, gone-InStep, Near-refl, connect-Near, connected-Near,
}

module _ (cb : Context) (pq : DeadlineQueue) (sock : Sock) (last : ℕ) where
  refresh-InStep :
      (addr timestamp : ℕ) (s s' : Session cb pq)
      → IsInStep cb pq s
      → Near cb pq addr s s'
      → timestamp + conn_timeout ≤ last
      → (s'' : Session cb pq) × (refresh cb pq sock last addr timestamp s' ≡ done (s'', ok))
        × IsInStep cb pq s''
  unfolding refresh
  refresh-InStep addr timestamp s s' h near fits =
      elim (Bool-cases (contains_key addr s'.servers)) [
        | inl here ↦
            let in_time : leb (timestamp + conn_timeout) last ≡ true = ground arith in
            (
              record s' {
                client = record s'.client {
                  deadlines = pq.push addr (timestamp + conn_timeout) s'.deadlines;
                };
              },
              rw (here, in_time),
              push-InStep cb pq addr (timestamp + conn_timeout) s s' h near here,
            )
        | inr gone ↦ (s', rw gone, gone-InStep cb pq addr s s' h near gone)
      ]

  -- What a call of the client came to.
  abbrev pub Handles : Outcome (Session cb pq × IoResult) → Type 0
  Handles o = (s : Session cb pq) × (r : IoResult) × (o ≡ done (s, r)) × WentWell cb pq s r

  then_refresh-Handles :
      (addr timestamp : ℕ) (s : Session cb pq) (handled : Session cb pq × IoResult)
      → IsInStep cb pq s
      → Near cb pq addr s handled.0
      → timestamp + conn_timeout ≤ last
      → Handles (then_refresh cb pq sock last addr timestamp handled)
  unfolding then_refresh
  then_refresh-Handles addr timestamp s (s', ok) h near fits =
      let (s'', run, in_step) = refresh-InStep addr timestamp s s' h near fits in
      (s'', ok, run, inl (refl, in_step))
  then_refresh-Handles addr timestamp s (s', err e) h near fits = (s', err e, refl, inr (e, refl))

  disconnect-Handles :
      (addr timestamp : ℕ) (s : Session cb pq)
      → IsInStep cb pq s
      → timestamp + conn_timeout ≤ last
      → Handles (on_disconnect cb pq sock s addr >>= then_refresh cb pq sock last addr timestamp)
  unfolding on_disconnect
  disconnect-Handles addr timestamp s h fits = elim (Option-cases (get addr s.servers)) [
    | inl absent ↦
        rw (absent, on_disconnect)
          (then_refresh-Handles addr timestamp s (s, ok) h (Near-refl cb pq sock addr s) fits)
    | inr (state, there) ↦
        let (t, deadline) =
          is_some-true (pq.get_priority addr s.deadlines) (sym (h addr) ∙ rw there) in
        let s' : Session cb pq = record s {
          client = record s.client {
            servers = remove addr s.servers;
            deadlines = (pq.remove addr s.deadlines).1;
          };
        } in
        rw (there, on_disconnect, pq.remove_value addr s.deadlines, deadline)
          (then_refresh-Handles addr timestamp s' (s', ok)
            (remove-InStep pq addr s.servers s.deadlines h) (Near-refl cb pq sock addr s') fits)
  ]

  -- On a client whose deadlines are those of its connected servers, no message makes the program
  -- panic, whoever sent it, decoded or not, as long as the instant of the new deadline can be
  -- represented. Afterwards the two are in step again, or the result is the error of a send.
  pub on_message-Handles :
      (s : Session cb pq) (addr timestamp : ℕ) (message : Option (Server × List ℕ))
      → IsInStep cb pq s
      → timestamp + conn_timeout ≤ last
      → Handles (on_message cb pq sock last s addr timestamp message)
  unfolding on_message
  on_message-Handles s addr timestamp none h fits = (_, ok, refl, inl (refl, h))
  on_message-Handles s addr timestamp (some (Server.connect formats, payload)) h fits =
      then_refresh-Handles addr timestamp s _ h (connect-Near cb pq sock addr s formats) fits
  on_message-Handles s addr timestamp (some (Server.connected msg, payload)) h fits =
      then_refresh-Handles addr timestamp s _ h
        (connected-Near cb pq sock addr timestamp s msg payload) fits
  on_message-Handles s addr timestamp (some (Server.disconnect, payload)) h fits =
      disconnect-Handles addr timestamp s h fits

  -- If, on a client in step, the application accepts a server that is not connected, and the answer
  -- to it cannot be sent, the server is connected without a deadline, and its next `Disconnect`
  -- makes the program panic.
  pub failed_accept_panics :
      (s : Session cb pq) (addr timestamp later : ℕ) (formats : StreamFormats) (payload : List ℕ)
      (state : cb.Inactive) (cx : cb.Cx) (log : List Packet) (e : ErrorKind)
      → IsInStep cb pq s
      → get addr s.servers ≡ none
      → cb.connect s.callbacks addr formats ≡ (inl state, cx)
      → send_msg sock (Client.connection_result Reply.ok) addr 2000 s.log ≡ (log, err e)
      → (s' : Session cb pq) × (on_message cb pq sock last s addr timestamp
            (some (Server.connect formats, payload))
          ≡ done (s', err e))
        × (get addr s'.servers ≡ some (inactive state))
        × (on_message cb pq sock last s' addr later (some (Server.disconnect, payload)) ≡ panicked)
  unfolding on_message on_server_connect_request reply_to then_refresh on_disconnect
  failed_accept_panics s addr timestamp later formats payload state cx log e h absent accepted
        fails =
      let s' : Session cb pq = record s {
        client = record s.client {
          servers = insert addr (inactive state) s.servers;
          callbacks = cx;
        };
        log = log;
      } in
      let here : get addr s'.servers ≡ some (inactive state) =
        get-insert addr addr (inactive state) s.servers ∙ rw (==_self addr) in
      let no_deadline =
        is_some-false (pq.get_priority addr s.deadlines) (sym (h addr) ∙ rw absent) in
      (
        s',
        rw (absent, accepted, fails),
        here,
        rw (here, on_disconnect, pq.remove_value addr s.deadlines, no_deadline),
      )
