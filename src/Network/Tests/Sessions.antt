-- ===== src/Network/Tests/Sessions.antt =====
-- A concrete application, socket and session, and the theorems about the client at them.
use syfala_test.Common.{
  ℕ, zero, suc, ◌^◌, ◌≡◌, refl, none, some, if◌then◌else◌, ◌==◌, List, [], ◌∷◌, length, arith, inl,
  inr, done, panicked,
}
use syfala_test.Proto.Format.{StreamFormats}
use syfala_test.Proto.Message.{start, Server, client_heartbeat, client_audio}
use syfala_test.Network.Wire.{client_message_encode, flat_of_client}
use syfala_test.Network.Context.{Context}
use syfala_test.Network.ServerMap.{get}
use syfala_test.Network.Socket.{
  Sock, IoResult, ok, err, other, timed_out, would_block, send_msg, io_err_is_timeout,
}
use syfala_test.Network.IoState.{inactive, active}
use syfala_test.Network.Generic.{Session, on_message, on_timeout}
use syfala_test.Network.Generic.InStep.{IsInStep}
use syfala_test.Network.Generic.Messages.{Handles, on_message-Handles, failed_accept_panics}
use syfala_test.Network.Generic.Timeouts.{Waits, on_timeout_drops_overdue}
use syfala_test.Network.Expire.Overdue.{alive}
use syfala_test.Network.Server
use syfala_test.Network.Server.{ServerSock, OnMessage}
use syfala_test.Network.Server.Hears.{Sent, nothing, pause, message, handle_all, start-hears}
use syfala_test.Network.Client
use syfala_test.Network.Client.Runs.{InTime, after_error, after_datagram, run, RunsTo, run-RunsTo}
use syfala_test.Network.Tests.Alarms.{alarms}
use syfala_test.Network.Tests.Codec.{client_codec, server_codec, header}

-- An application that counts the servers that it accepts, and starts and stops all of them.
abbrev app : Context
app = record {
  Cx = ℕ;
  Inactive = Unit {0};
  StartPending = Unit {0};
  Active = Unit {0};
  StopPending = Unit {0};
  connect = λ cx addr formats. (inl tt, suc cx);
  unknown_message = λ cx addr. cx;
  poll_start_io = λ s cx. (inl tt, cx);
  start_io = λ s cx. (tt, cx);
  start_io_refused = λ s cx. (tt, cx);
  start_io_failed = λ s cx. (tt, cx);
  on_audio = λ s cx timestamp h payload. (tt, cx);
  poll_stop_io = λ s cx. (inl tt, cx);
  stop_io = λ s cx. (tt, cx);
  stop_io_refused = λ s cx. (tt, cx);
  stop_io_failed = λ s cx. (tt, cx);
}

abbrev sock : Sock
sock = record { send = λ log p. ok; set_recv_timeout = λ t. ok; postcard = client_codec }

-- A socket that sends nothing.
abbrev broken : Sock
broken = record { send = λ log p. err other; set_recv_timeout = λ t. ok; postcard = client_codec }

abbrev no_formats : StreamFormats
no_formats = record { inputs = []; outputs = [] }

abbrev fresh : Session app alarms
fresh = record {
  client = record { deadlines = []; servers = []; retry_deadline = none; callbacks = 0 };
  log = [];
  recv_timeout = none;
}

fresh-IsInStep : IsInStep app alarms fresh
unfolding get
fresh-IsInStep a = refl

-- Two servers, at the addresses 0 and 1, whose deadlines are 5 and 30 ms.
abbrev busy : Session app alarms
busy = record {
  client = record {
    deadlines = some 5_000_000 ∷ some 30_000_000 ∷ [];
    servers = (1, inactive tt) ∷ (0, active tt) ∷ [];
    retry_deadline = none;
    callbacks = 2;
  };
  log = [];
  recv_timeout = none;
}

busy-IsInStep : IsInStep app alarms busy
unfolding get
busy-IsInStep zero = refl
busy-IsInStep (suc zero) = refl
busy-IsInStep (suc (suc a)) = ground arith

abbrev last : ℕ
last = 2 ^ 63

on_message-Handles_example :
    Handles app alarms sock last
      (on_message app alarms sock last busy 7 100 (some (Server.connect no_formats, [])))
on_message-Handles_example =
    on_message-Handles app alarms sock last busy 7 100 (some (Server.connect no_formats, []))
      busy-IsInStep (omega arith)

failed_accept_panics_example :
    (s' : Session app alarms) × (on_message app alarms broken last fresh 7 100
        (some (Server.connect no_formats, []))
      ≡ done (s', err other))
    × (get 7 s'.servers ≡ some (inactive tt))
    × (on_message app alarms broken last s' 7 200 (some (Server.disconnect, [])) ≡ panicked)
unfolding get send_msg client_message_encode flat_of_client
failed_accept_panics_example =
    failed_accept_panics app alarms broken last fresh 7 100 200 no_formats [] tt 1 [] other
      fresh-IsInStep refl refl refl

on_timeout_drops_overdue_example :
    (s' : Session app alarms) × (r : IoResult) × (on_timeout app alarms sock 9_000_000 busy
      ≡ done (s', r))
    × IsInStep app alarms s'
    × ((a : ℕ)
        → alarms.get_priority a s'.deadlines
          ≡ alive 9_000_000 (alarms.get_priority a busy.deadlines))
    × (r ≡ ok → Waits app alarms sock 9_000_000 s'.deadlines s'.recv_timeout)
on_timeout_drops_overdue_example =
    on_timeout_drops_overdue app alarms sock 9_000_000 busy busy-IsInStep

-- The server at 0 disconnects, then nothing comes for a while, then garbage arrives.
abbrev events : List Client.Received
events =
    Client.datagram 0 100 (7 ∷ [])
    ∷ Client.failed timed_out 200
    ∷ Client.datagram 8 300 (99 ∷ [])
    ∷ []

run-RunsTo_example :
    RunsTo app alarms sock last server_codec (run app alarms sock last server_codec busy events)
run-RunsTo_example = run-RunsTo app alarms sock last server_codec busy events busy-IsInStep (
    after_datagram 0 100 (7 ∷ []) _ (omega arith)
      (after_error timed_out 200 _ (after_datagram 8 300 (99 ∷ []) _ (omega arith) InTime.nothing)))

-- A server that remembers who spoke, and gives up at the third message.
abbrev remember : OnMessage (List ℕ)
remember heard addr m = (addr ∷ heard, if length heard == 2 then err other else ok)

abbrev server_sock : ServerSock
server_sock = record {
  send_to = λ bytes addr. inr (length bytes);
  postcard = server_codec;
  client_postcard = client_codec;
}

abbrev sent : List Sent
sent = (4, client_heartbeat, []) ∷ (5, client_audio header, 9 ∷ 9 ∷ []) ∷ []

abbrev received : List Server.Received
received =
    Server.datagram 4 (8 ∷ [])
    ∷ Server.failed would_block
    ∷ Server.datagram 5 (0 ∷ 1 ∷ 700 ∷ 64 ∷ 9 ∷ 9 ∷ [])
    ∷ []

start-hears_example :
    Server.start remember server_sock [] received ≡ handle_all remember server_sock 200 [] sent
unfolding client_message_encode flat_of_client io_err_is_timeout
start-hears_example = start-hears remember server_sock 200 [] sent received (
    message 4 client_heartbeat (8 ∷ []) [] _ _ refl (
      pause would_block _ _ refl
        (message 5 (client_audio header) (0 ∷ 1 ∷ 700 ∷ 64 ∷ []) (9 ∷ 9 ∷ []) _ _ refl nothing)))
