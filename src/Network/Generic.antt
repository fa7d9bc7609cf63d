-- ===== src/Network/Generic.antt =====
-- `GenericClient` of `syfala_network/src/udp/client/generic/mod.rs`: the connected servers, their
-- deadlines, and what the client does on a message and on a socket timeout. Instants and durations
-- are in nanoseconds; `last` is the last instant that the platform can represent.
pub mod InStep
pub mod Messages
pub mod Timeouts
use syfala_test.Common.{
  ℕ, zero, suc, ◌+◌, ◌-◌, min, Outcome, done, panicked, ◌>>=◌, unwrap, leb, if◌then◌else◌, List, [],
  ◌∷◌, Option, none, some, inl, inr, ◌⊎◌,
}
use syfala_test.Proto.Format.{StreamFormats}
use syfala_test.Proto.Message.{Reply, Error, Client, Server, ServerConnected}
use syfala_test.Network.Context.{Context}
use syfala_test.Network.Deadlines.{DeadlineQueue}
use syfala_test.Network.ServerMap.{ServerMap, get, insert, remove, contains_key}
use syfala_test.Network.Socket.{Sock, Packet, IoResult, ok, err, send_msg}
use syfala_test.Network.Expire.{conn_timeout, expire, next_timeout}
use syfala_test.Network.Poll.{poll_all}
use syfala_test.Network.IoState.{
  ServerIoState, inactive, pending_start, active, pending_stop, Handled, on_msg,
}

pub record GenericClient (cb : Context) (pq : DeadlineQueue) : Type 0 where
  pub deadlines : pq.Queue
  pub servers : ServerMap (ServerIoState cb)
  pub retry_deadline : Option ℕ
  pub callbacks : cb.Cx

-- The client with the socket that its methods are given: the packets sent so far, and the receive
-- timeout.
pub record Session (cb : Context) (pq : DeadlineQueue) : Type 0 where
  pub client : GenericClient cb pq
  pub open client use *
  pub log : List Packet
  pub recv_timeout : Option ℕ

module _ (cb : Context) (pq : DeadlineQueue) where
  -- `new`
  unfoldable pub new : cb.Cx → GenericClient cb pq
  new callbacks = record {
    deadlines = pq.empty;
    servers = [];
    retry_deadline = none;
    callbacks = callbacks;
  }

module _ {cb : Context} {pq : DeadlineQueue} where
  abbrev pub with_servers : Session cb pq → ServerMap (ServerIoState cb) → cb.Cx → Session cb pq
  with_servers s servers callbacks = record s {
    client = record s.client { servers = servers; callbacks = callbacks };
  }

  abbrev pub with_deadlines : Session cb pq → pq.Queue → Session cb pq
  with_deadlines s deadlines = record s { client = record s.client { deadlines = deadlines } }

  abbrev pub with_log : Session cb pq → List Packet → Session cb pq
  with_log s log = record s { log = log }

module _ (cb : Context) (pq : DeadlineQueue) (sock : Sock) where
  -- `send_msg` of this session's socket.
  unfoldable pub reply_to : Session cb pq → Client → ℕ → Session cb pq × IoResult
  reply_to s message addr =
      let (log, result) = send_msg sock message addr 2000 s.log in (with_log s log, result)

  -- The answer of `connect`.
  abbrev connect_answered :
      Session cb pq → ℕ → (cb.Inactive ⊎ Error) × cb.Cx → Session cb pq × IoResult
  connect_answered s addr (inl state, cx) =
      reply_to (with_servers s (insert addr (inactive state) s.servers) cx)
        (Client.connection_result Reply.ok) addr
  connect_answered s addr (inr e, cx) =
      reply_to (with_servers s s.servers cx) (Client.connection_result (Reply.err e)) addr

  -- `on_server_connect_request`
  unfoldable pub on_server_connect_request :
      Session cb pq → ℕ → StreamFormats → Session cb pq × IoResult
  on_server_connect_request s addr formats =
      if contains_key addr s.servers
      then (s, ok)
      else connect_answered s addr (cb.connect s.callbacks addr formats)

  -- A message of a connected server, for the state machine at its address.
  unfoldable pub on_connected_message :
      Session cb pq → ℕ → ℕ → ServerConnected → List ℕ → Session cb pq × IoResult
  on_connected_message s addr timestamp msg payload = elim (get addr s.servers) [
    | none ↦ (s, ok)
    | some state ↦
        let (state', cx, log, result) =
          on_msg cb sock addr msg payload timestamp state s.callbacks s.log in
        (with_log (with_servers s (insert addr state' s.servers) cx) log, result)
  ]

  unfoldable pub on_disconnect : Session cb pq → ℕ → Outcome (Session cb pq × IoResult)
  on_disconnect s addr = elim (get addr s.servers) [
    | none ↦ done (s, ok)
    | some state ↦
        let (deadline, deadlines) = pq.remove addr s.deadlines in
        unwrap deadline >>= λ _.
        done (with_deadlines (with_servers s (remove addr s.servers) s.callbacks) deadlines, ok)
  ]

  module _ (last : ℕ) where
    -- The end of `on_decoded_message`: the deadline of a server that is still connected moves.
    unfoldable pub refresh : ℕ → ℕ → Session cb pq → Outcome (Session cb pq × IoResult)
    refresh addr timestamp s =
        if contains_key addr s.servers
        then (if leb (timestamp + conn_timeout) last
            then done (with_deadlines s (pq.push addr (timestamp + conn_timeout) s.deadlines), ok)
            else panicked)
        else done (s, ok)

    -- An error returns before that.
    unfoldable pub then_refresh :
        ℕ → ℕ → Session cb pq × IoResult → Outcome (Session cb pq × IoResult)
    unfolding refresh
    then_refresh addr timestamp (s, ok) = refresh addr timestamp s
    then_refresh addr timestamp (s, err e) = done (s, err e)

    -- `on_decoded_message`
    unfoldable pub on_decoded_message :
        Session cb pq → ℕ → ℕ → Server → List ℕ → Outcome (Session cb pq × IoResult)
    unfolding then_refresh
    on_decoded_message s addr timestamp (Server.connect formats) payload =
        then_refresh addr timestamp (on_server_connect_request s addr formats)
    on_decoded_message s addr timestamp (Server.connected msg) payload =
        then_refresh addr timestamp (on_connected_message s addr timestamp msg payload)
    on_decoded_message s addr timestamp Server.disconnect payload =
        on_disconnect s addr >>= then_refresh addr timestamp

    -- `on_message`; `none` is a datagram that could not be decoded.
    unfoldable pub on_message :
        Session cb pq → ℕ → ℕ → Option (Server × List ℕ) → Outcome (Session cb pq × IoResult)
    unfolding on_decoded_message
    on_message s addr timestamp (some (msg, payload)) =
        on_decoded_message s addr timestamp msg payload
    on_message s addr timestamp none =
        done (with_servers s s.servers (cb.unknown_message s.callbacks addr), ok)

  abbrev pub set_timeout : Session cb pq → Option ℕ → IoResult → Session cb pq × IoResult
  set_timeout s timeout ok = (record s { recv_timeout = timeout }, ok)
  set_timeout s timeout (err e) = (s, err e)

  abbrev pub finish : ℕ → Session cb pq → IoResult → Session cb pq × IoResult
  finish now s ok =
      let timeout = next_timeout pq now s.deadlines in
      set_timeout s timeout (sock.set_recv_timeout timeout)
  finish now s (err e) = (s, err e)

  -- `on_timeout`, at the instant `now`.
  unfoldable pub on_timeout : ℕ → Session cb pq → Outcome (Session cb pq × IoResult)
  on_timeout now s = do
    (servers, deadlines) ← expire pq now (suc (pq.size s.deadlines)) s.servers s.deadlines
    let (servers', cx, log, result) = poll_all cb sock servers s.callbacks s.log
    done (finish now (with_log (with_deadlines (with_servers s servers' cx) deadlines) log) result)
