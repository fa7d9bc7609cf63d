-- ===== src/Network/IoState.antt =====
-- `ServerIOState` of `syfala_network/src/udp/client/generic/mod.rs`: the IO state machine of one
-- server, and what it does with a message of a connected server.
pub mod Transitions
use syfala_test.Common.{ℕ, List}
use syfala_test.Proto.Message.{
  start, stop, failure, refusal, Reply, ServerControl, io_state_change_result, ServerConnected,
  Client, client_start_io, client_stop_io, AudioMessageHeader,
}
use syfala_test.Network.Context.{Context}
use syfala_test.Network.Socket.{Sock, Packet, IoResult, send_msg}

pub data ServerIoState (cb : Context) : Type 0 where
  inactive : cb.Inactive → ServerIoState cb
  pending_start : cb.StartPending → ServerIoState cb
  active : cb.Active → ServerIoState cb
  pending_stop : cb.StopPending → ServerIoState cb

-- The state, the application, the packets sent, and the result.
abbrev pub Handled : Context → Type 0
Handled cb = ServerIoState cb × cb.Cx × List Packet × IoResult

module _ (cb : Context) (sock : Sock) (addr : ℕ) where
  -- A request is sent again.
  unfoldable pub retry : Client → ServerIoState cb → cb.Cx → List Packet → Handled cb
  retry message state cx log =
      let (log', result) = send_msg sock message addr 2000 log in (state, cx, log', result)

  -- `IOStateChangeResult(IOState::Start(r))`
  unfoldable pub on_start : Reply → ServerIoState cb → cb.Cx → List Packet → Handled cb
  unfolding retry
  on_start Reply.ok (pending_start s) cx log =
      let (s', cx') = cb.start_io s cx in (active s', cx', log, IoResult.ok)
  on_start (Reply.err failure) (pending_start s) cx log =
      let (s', cx') = cb.start_io_failed s cx in retry client_start_io (pending_start s') cx' log
  on_start (Reply.err refusal) (pending_start s) cx log =
      let (s', cx') = cb.start_io_refused s cx in (inactive s', cx', log, IoResult.ok)
  on_start r state cx log = (state, cx, log, IoResult.ok)

  -- `IOStateChangeResult(IOState::Stop(r))`
  unfoldable pub on_stop : Reply → ServerIoState cb → cb.Cx → List Packet → Handled cb
  unfolding retry
  on_stop Reply.ok (pending_stop s) cx log =
      let (s', cx') = cb.stop_io s cx in (inactive s', cx', log, IoResult.ok)
  on_stop (Reply.err failure) (pending_stop s) cx log =
      let (s', cx') = cb.stop_io_failed s cx in retry client_stop_io (pending_stop s') cx' log
  on_stop (Reply.err refusal) (pending_stop s) cx log =
      let (s', cx') = cb.stop_io_refused s cx in (active s', cx', log, IoResult.ok)
  on_stop r state cx log = (state, cx, log, IoResult.ok)

  unfoldable pub on_audio_msg :
      AudioMessageHeader → List ℕ → ℕ → ServerIoState cb → cb.Cx → List Packet → Handled cb
  on_audio_msg header payload timestamp (active s) cx log =
      let (s', cx') = cb.on_audio s cx timestamp header payload in
      (active s', cx', log, IoResult.ok)
  on_audio_msg header payload timestamp state cx log = (state, cx, log, IoResult.ok)

  -- `on_msg`
  unfoldable pub on_msg :
      ServerConnected → List ℕ → ℕ → ServerIoState cb → cb.Cx → List Packet → Handled cb
  unfolding on_start on_stop on_audio_msg
  on_msg (ServerConnected.control (io_state_change_result (start r))) payload timestamp state cx
        log =
      on_start r state cx log
  on_msg (ServerConnected.control (io_state_change_result (stop r))) payload timestamp state cx
        log =
      on_stop r state cx log
  on_msg (ServerConnected.control ServerControl.heartbeat) payload timestamp state cx log =
      (state, cx, log, IoResult.ok)
  on_msg (ServerConnected.audio header) payload timestamp state cx log =
      on_audio_msg header payload timestamp state cx log
