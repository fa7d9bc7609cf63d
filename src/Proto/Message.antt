-- ===== src/Proto/Message.antt =====
-- Messages and audio headers: `syfala_proto/src/message.rs` and the types of
-- `syfala_proto/src/lib.rs`. Machine integers are numbers; the bounds are in the statements.
use syfala_test.Common.{ℕ, Outcome, strict_add}
use syfala_test.Proto.Format.{StreamFormats}

pub record AudioStreamMessageHeader : Type 0 where
  pub byte_idx : ℕ
  pub n_bytes : ℕ

unfoldable pub next_byte_idx : AudioStreamMessageHeader → Outcome ℕ
next_byte_idx h = strict_add h.byte_idx h.n_bytes

pub record AudioMessageHeader : Type 0 where
  pub stream_idx : ℕ
  pub stream_msg : AudioStreamMessageHeader

-- `IOState<T, U>`
pub data IoState (T : Type 0) (U : Type 0) : Type 0 where
  start : T → IoState T U
  stop : U → IoState T U

-- `Error`, whose arguments are `()` in every message.
pub data Error : Type 0 where
  failure refusal : Error

-- `Result<(), Error>`
pub data Reply : Type 0 where
  ok : Reply
  err : Error → Reply

-- `client::Control`
pub data ClientControl : Type 0 where
  request_io_state_change : IoState (Unit {0}) (Unit {0}) → ClientControl
  heartbeat : ClientControl

-- `client::Connected`
pub data ClientConnected : Type 0 where
  control : ClientControl → ClientConnected
  audio : AudioMessageHeader → ClientConnected

-- `message::Client`
pub data Client : Type 0 where
  discovery : Client
  connection_result : Reply → Client
  connected : ClientConnected → Client
  disconnect : Client

-- `server::Control`
pub data ServerControl : Type 0 where
  io_state_change_result : IoState Reply Reply → ServerControl
  heartbeat : ServerControl

-- `server::Connected`
pub data ServerConnected : Type 0 where
  control : ServerControl → ServerConnected
  audio : AudioMessageHeader → ServerConnected

-- `message::Server`
pub data Server : Type 0 where
  connect : StreamFormats → Server
  connected : ServerConnected → Server
  disconnect : Server

-- The constants of `Client`.
abbrev pub client_heartbeat : Client
client_heartbeat = Client.connected (ClientConnected.control ClientControl.heartbeat)

abbrev pub client_start_io : Client
client_start_io = Client.connected (ClientConnected.control (request_io_state_change (start tt)))

abbrev pub client_stop_io : Client
client_stop_io = Client.connected (ClientConnected.control (request_io_state_change (stop tt)))

abbrev pub client_audio : AudioMessageHeader → Client
client_audio h = Client.connected (ClientConnected.audio h)

-- The constants of `Server`.
abbrev pub server_heartbeat : Server
server_heartbeat = Server.connected (ServerConnected.control ServerControl.heartbeat)

abbrev pub server_start_io : Reply → Server
server_start_io r = Server.connected (ServerConnected.control (io_state_change_result (start r)))

abbrev pub server_stop_io : Reply → Server
server_stop_io r = Server.connected (ServerConnected.control (io_state_change_result (stop r)))

abbrev pub server_audio : AudioMessageHeader → Server
server_audio h = Server.connected (ServerConnected.audio h)
