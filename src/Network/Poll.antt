-- ===== src/Network/Poll.antt =====
-- The loop of `GenericClient::on_timeout` (`syfala_network/src/udp/client/generic/mod.rs`) that asks
-- the application whether a server's IO is to start or to stop.
use syfala_test.Common.{ℕ, List, [], ◌∷◌, ◌⊎◌, inl, inr}
use syfala_test.Proto.Message.{client_start_io}
use syfala_test.Network.Context.{Context}
use syfala_test.Network.ServerMap.{ServerMap}
use syfala_test.Network.Socket.{Sock, Packet, IoResult, ok, err, send_msg}
use syfala_test.Network.IoState.{
  ServerIoState, inactive, pending_start, active, pending_stop, Handled,
}

-- The servers, the application, the packets sent, and the result.
abbrev pub Polled : Context → Type 0
Polled cb = ServerMap (ServerIoState cb) × cb.Cx × List Packet × IoResult

module _ (cb : Context) (sock : Sock) where
  -- The answer of `poll_start_io`. A request is sent from a buffer of 200 bytes.
  abbrev pub start_polled : ℕ → List Packet → (cb.StartPending ⊎ cb.Inactive) × cb.Cx → Handled cb
  start_polled addr log (inl s, cx) =
      let (log', result) = send_msg sock client_start_io addr 200 log in
      (pending_start s, cx, log', result)
  start_polled addr log (inr s, cx) = (inactive s, cx, log, ok)

  -- The answer of `poll_stop_io`.
  abbrev pub stop_polled : ℕ → List Packet → (cb.StopPending ⊎ cb.Active) × cb.Cx → Handled cb
  stop_polled addr log (inl s, cx) =
      let (log', result) = send_msg sock client_start_io addr 200 log in
      (pending_stop s, cx, log', result)
  stop_polled addr log (inr s, cx) = (active s, cx, log, ok)

  -- One round.
  unfoldable pub poll_one : ℕ → ServerIoState cb → cb.Cx → List Packet → Handled cb
  poll_one addr (inactive s) cx log = start_polled addr log (cb.poll_start_io s cx)
  poll_one addr (active s) cx log = stop_polled addr log (cb.poll_stop_io s cx)
  poll_one addr state cx log = (state, cx, log, ok)

  abbrev pub poll_rest :
      (cb.Cx → List Packet → Polled cb) → ℕ → ServerMap (ServerIoState cb) → Handled cb → Polled cb
  poll_rest rest addr servers (state, cx, log, ok) =
      let (servers', cx', log', result) = rest cx log in
      ((addr, state) ∷ servers', cx', log', result)
  poll_rest rest addr servers (state, cx, log, err e) = ((addr, state) ∷ servers, cx, log, err e)

  -- The loop, which an error ends.
  unfoldable pub poll_all : ServerMap (ServerIoState cb) → cb.Cx → List Packet → Polled cb
  poll_all [] cx log = ([], cx, log, ok)
  poll_all ((addr, state) ∷ servers) cx log =
      poll_rest (poll_all servers) addr servers (poll_one addr state cx log)
