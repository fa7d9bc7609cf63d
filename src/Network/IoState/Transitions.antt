-- ===== src/Network/IoState/Transitions.antt =====
-- How messages and polls move the IO state machine of a server, and what they send.
use syfala_test.Common.{
  ℕ, ◌≡◌, Bool, true, false, Option, none, some, List, ◌⊎◌, inl, inr, if◌then◌else◌,
}
use syfala_test.Proto.Message.{
  start, stop, failure, refusal, Reply, io_state_change_result, ServerConnected, Client,
  client_start_io, client_stop_io,
}
use syfala_test.Network.Context.{Context}
use syfala_test.Network.Socket.{Sock, Packet, IoResult, send_msg}
use syfala_test.Network.IoState.{
  ServerIoState, inactive, pending_start, active, pending_stop, Handled,
}

pub data Phase : Type 0 where
  idle starting running stopping : Phase

unfoldable pub phase : {cb : Context} → ServerIoState cb → Phase
phase (inactive _) = idle
phase (pending_start _) = starting
phase (active _) = running
phase (pending_stop _) = stopping

-- The phase after a message, the same one where the table has no entry.
unfoldable pub answered : ServerConnected → Phase → Phase
answered (ServerConnected.control (io_state_change_result (start Reply.ok))) starting = running
answered (ServerConnected.control (io_state_change_result (start (Reply.err refusal)))) starting =
    idle
answered (ServerConnected.control (io_state_change_result (stop Reply.ok))) stopping = idle
answered (ServerConnected.control (io_state_change_result (stop (Reply.err refusal)))) stopping =
    running
answered _ p = p

-- The request that a message makes the client send again.
unfoldable pub repeated : ServerConnected → Phase → Option Client
repeated (ServerConnected.control (io_state_change_result (start (Reply.err failure)))) starting =
    some client_start_io
repeated (ServerConnected.control (io_state_change_result (stop (Reply.err failure)))) stopping =
    some client_stop_io
repeated _ p = none

-- The phase after a poll, by whether the application asks for a change.
unfoldable pub asked : Bool → Phase → Phase
asked true idle = starting
asked true running = stopping
asked _ p = p

abbrev is_inl : {A B : Type 0} → A ⊎ B → Bool
is_inl (inl _) = true
is_inl (inr _) = false

-- Whether the application asks for a change of the server's IO, and the application afterwards. It
-- is not consulted while a request is under way.
unfoldable pub asks : (cb : Context) → ServerIoState cb → cb.Cx → Bool × cb.Cx
asks cb (inactive s) cx = (is_inl (cb.poll_start_io s cx).0, (cb.poll_start_io s cx).1)
asks cb (active s) cx = (is_inl (cb.poll_stop_io s cx).0, (cb.poll_stop_io s cx).1)
asks cb (pending_start s) cx = (false, cx)
asks cb (pending_stop s) cx = (false, cx)

-- The packets and the result after sending a message, if there is one.
unfoldable pub transmit : Sock → ℕ → ℕ → List Packet → Option Client → List Packet × IoResult
transmit sock addr room log none = (log, IoResult.ok)
transmit sock addr room log (some message) = send_msg sock message addr room log

module _ (cb : Context) (sock : Sock) (addr : ℕ) where
  -- What is left of a server in phase `p` by the message `m`.
  abbrev Answers : ServerConnected → Phase → List Packet → Handled cb → Type 0
  Answers m p log r =
      (phase r.0 ≡ answered m p) × ((r.2, r.3) ≡ transmit sock addr 2000 log (repeated m p))

  -- What a poll leaves of a server in phase `p`.
  abbrev Polls : Bool × cb.Cx → Phase → List Packet → Handled cb → Type 0
  Polls (change, cx') p log r =
      (phase r.0 ≡ asked change p)
      × (r.1 ≡ cx')
      × ((r.2, r.3) ≡ transmit sock addr 200 log (if change then some client_start_io else none))
