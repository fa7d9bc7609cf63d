-- ===== src/Network/Wire.antt =====
-- The flat messages of the wire: `syfala_network/src/lib.rs`. The encoding of a flat message by
-- `postcard` is not part of the repository, and is a parameter.
pub mod RoundTrip
use syfala_test.Common.{ℕ, ◌+◌, ◌*◌, List, ◌++◌, ◌≡◌, ◌⊎◌, inl, inr}
use syfala_test.Proto.Format.{StreamFormats}
use syfala_test.Proto.Message.{
  AudioMessageHeader, IoState, start, stop, Error, failure, refusal, Reply, ok, err, ClientControl,
  request_io_state_change, ClientConnected, Client, ServerControl, io_state_change_result,
  ServerConnected, Server, client_heartbeat, client_start_io, client_stop_io, client_audio,
  server_heartbeat, server_start_io, server_stop_io, server_audio,
}

pub data ClientMessageFlat : Type 0 where
  discovery connection_success connection_failed connection_refused start_io stop_io :
      ClientMessageFlat
  audio_header : ℕ → ℕ → ℕ → ClientMessageFlat
  disconnect heartbeat : ClientMessageFlat

-- `u32::from_le_bytes`
abbrev tag : ℕ → ℕ → ℕ → ℕ → ℕ
tag a b c d = a + 256 * (b + 256 * (c + 256 * d))

-- The discriminants.
unfoldable pub client_tag : ClientMessageFlat → ℕ
client_tag discovery = tag b'c' b'd' b's' b'c'
client_tag connection_success = tag b'c' b'c' b'o' b'k'
client_tag connection_failed = tag b'c' b'c' b'e' b'r'
client_tag connection_refused = tag b'c' b'c' b'r' b'f'
client_tag start_io = tag b'c' b's' b't' b'a'
client_tag stop_io = tag b'c' b's' b't' b'o'
client_tag (audio_header _ _ _) = tag b'c' b'a' b'u' b'd'
client_tag disconnect = tag b'c' b'd' b'e' b'd'
client_tag heartbeat = tag b'c' b'l' b'i' b'v'

-- `From<ClientMessageFlat> for Client`
unfoldable pub client_of_flat : ClientMessageFlat → Client
client_of_flat discovery = Client.discovery
client_of_flat start_io = client_start_io
client_of_flat stop_io = client_stop_io
client_of_flat (audio_header stream_idx byte_idx n_bytes) = client_audio (record {
  stream_idx = stream_idx;
  stream_msg = record { byte_idx = byte_idx; n_bytes = n_bytes };
})
client_of_flat connection_success = Client.connection_result ok
client_of_flat connection_failed = Client.connection_result (err failure)
client_of_flat connection_refused = Client.connection_result (err refusal)
client_of_flat disconnect = Client.disconnect
client_of_flat heartbeat = client_heartbeat

-- `From<Client> for ClientMessageFlat`
unfoldable pub flat_of_client : Client → ClientMessageFlat
flat_of_client Client.discovery = discovery
flat_of_client (Client.connected (ClientConnected.control (request_io_state_change (start _)))) =
    start_io
flat_of_client (Client.connected (ClientConnected.control (request_io_state_change (stop _)))) =
    stop_io
flat_of_client (Client.connected (ClientConnected.control ClientControl.heartbeat)) = heartbeat
flat_of_client (Client.connected (ClientConnected.audio h)) =
    audio_header h.stream_idx h.stream_msg.byte_idx h.stream_msg.n_bytes
flat_of_client (Client.connection_result ok) = connection_success
flat_of_client (Client.connection_result (err failure)) = connection_failed
flat_of_client (Client.connection_result (err refusal)) = connection_refused
flat_of_client Client.disconnect = disconnect

pub data ServerMessageFlat : Type 0 where
  connect : StreamFormats → ServerMessageFlat
  start_io_failed start_io_refused start_io_success : ServerMessageFlat
  stop_io_failed stop_io_refused stop_io_success : ServerMessageFlat
  audio_header : ℕ → ℕ → ℕ → ServerMessageFlat
  disconnect heartbeat : ServerMessageFlat

unfoldable pub server_tag : ServerMessageFlat → ℕ
server_tag (connect _) = tag b's' b'c' b'o' b'n'
server_tag start_io_failed = tag b's' b'a' b'i' b'f'
server_tag start_io_refused = tag b's' b'a' b'i' b'r'
server_tag start_io_success = tag b's' b'a' b'i' b's'
server_tag stop_io_failed = tag b's' b'o' b'i' b'f'
server_tag stop_io_refused = tag b's' b'o' b'i' b'r'
server_tag stop_io_success = tag b's' b'o' b'i' b's'
server_tag (ServerMessageFlat.audio_header _ _ _) = tag b's' b'a' b'u' b'd'
server_tag ServerMessageFlat.disconnect = tag b's' b'd' b'e' b'd'
server_tag ServerMessageFlat.heartbeat = tag b's' b'l' b'i' b'v'

-- `From<ServerMessageFlat> for Server`
unfoldable pub server_of_flat : ServerMessageFlat → Server
server_of_flat (connect f) = Server.connect f
server_of_flat start_io_failed = server_start_io (err failure)
server_of_flat start_io_refused = server_start_io (err refusal)
server_of_flat start_io_success = server_start_io ok
server_of_flat stop_io_failed = server_stop_io (err failure)
server_of_flat stop_io_refused = server_stop_io (err refusal)
server_of_flat stop_io_success = server_stop_io ok
server_of_flat (ServerMessageFlat.audio_header stream_idx byte_idx n_bytes) = server_audio (record {
  stream_idx = stream_idx;
  stream_msg = record { byte_idx = byte_idx; n_bytes = n_bytes };
})
server_of_flat ServerMessageFlat.disconnect = Server.disconnect
server_of_flat ServerMessageFlat.heartbeat = server_heartbeat

-- `From<Server> for ServerMessageFlat`
unfoldable pub flat_of_server : Server → ServerMessageFlat
flat_of_server (Server.connect f) = connect f
flat_of_server (Server.connected (ServerConnected.control (io_state_change_result (start ok)))) =
    start_io_success
flat_of_server
      (Server.connected (ServerConnected.control (io_state_change_result (start (err failure))))) =
    start_io_failed
flat_of_server
      (Server.connected (ServerConnected.control (io_state_change_result (start (err refusal))))) =
    start_io_refused
flat_of_server (Server.connected (ServerConnected.control (io_state_change_result (stop ok)))) =
    stop_io_success
flat_of_server
      (Server.connected (ServerConnected.control (io_state_change_result (stop (err failure))))) =
    stop_io_failed
flat_of_server
      (Server.connected (ServerConnected.control (io_state_change_result (stop (err refusal))))) =
    stop_io_refused
flat_of_server (Server.connected (ServerConnected.control ServerControl.heartbeat)) =
    ServerMessageFlat.heartbeat
flat_of_server (Server.connected (ServerConnected.audio h)) =
    ServerMessageFlat.audio_header h.stream_idx h.stream_msg.byte_idx h.stream_msg.n_bytes
flat_of_server Server.disconnect = ServerMessageFlat.disconnect

-- `postcard::Error`: the one kind that the source tells apart, and the others.
pub data PostcardError : Type 0 where
  deserialize_unexpected_end other : PostcardError

-- `postcard` over the flat messages `F`: `to_io` into a buffer of that many bytes, and
-- `deserialize` with `finalize`, which gives the bytes that were not read. The crate promises that
-- what was written is read back.
pub record Postcard (F : Type 0) : Type 0 where
  pub to_io : F → ℕ → PostcardError ⊎ List ℕ
  pub deserialize : List ℕ → PostcardError ⊎ (F × List ℕ)
  pub deserialize-to_io :
      (m : F) (room : ℕ) (bytes rest : List ℕ)
      → to_io m room ≡ inr bytes
      → deserialize (bytes ++ rest) ≡ inr (m, rest)

unfoldable pub client_message_encode :
    Postcard ClientMessageFlat → Client → ℕ → PostcardError ⊎ List ℕ
unfolding flat_of_client
client_message_encode c m room = c.to_io (flat_of_client m) room

abbrev read_client :
    PostcardError ⊎ (ClientMessageFlat × List ℕ) → PostcardError ⊎ (Client × List ℕ)
read_client (inl e) = inl e
read_client (inr (m, rest)) = inr (client_of_flat m, rest)

unfoldable pub client_message_decode :
    Postcard ClientMessageFlat → List ℕ → PostcardError ⊎ (Client × List ℕ)
unfolding client_of_flat
client_message_decode c slice = read_client (c.deserialize slice)

unfoldable pub server_message_encode :
    Postcard ServerMessageFlat → Server → ℕ → PostcardError ⊎ List ℕ
unfolding flat_of_server
server_message_encode c m room = c.to_io (flat_of_server m) room

abbrev read_server :
    PostcardError ⊎ (ServerMessageFlat × List ℕ) → PostcardError ⊎ (Server × List ℕ)
read_server (inl e) = inl e
read_server (inr (m, rest)) = inr (server_of_flat m, rest)

unfoldable pub server_message_decode :
    Postcard ServerMessageFlat → List ℕ → PostcardError ⊎ (Server × List ℕ)
unfolding server_of_flat
server_message_decode c slice = read_server (c.deserialize slice)
