-- ===== src/Network/Server.antt =====
-- `ServerSocket` and the receive loop of `ServerState`, `syfala_network/src/udp/server/mod.rs`. What
-- `recv_from` answers, one call after the other, is a list.
pub mod Hears
use syfala_test.Common.{
  ℕ, Bool, true, false, List, [], ◌∷◌, ◌++◌, length, ◌⊎◌, inl, inr, Option, none, some,
  if◌then◌else◌,
}
use syfala_test.Proto.Message.{Client, Server}
use syfala_test.Network.Wire.{
  PostcardError, Postcard, ClientMessageFlat, ServerMessageFlat, server_message_encode,
  client_message_decode,
}
use syfala_test.Network.Socket.{
  Packet, ErrorKind, IoResult, ok, err, whole_datagram, postcard_to_io_err, io_err_is_timeout,
}

-- `ServerSocket` over a socket whose `send_to` answers the number of bytes sent.
pub record ServerSock : Type 0 where
  pub send_to : List ℕ → ℕ → ErrorKind ⊎ ℕ
  pub postcard : Postcard ServerMessageFlat
  pub client_postcard : Postcard ClientMessageFlat

unfoldable pub send_packet : ServerSock → List ℕ → ℕ → IoResult
unfolding whole_datagram
send_packet sock bytes dest_addr = whole_datagram (sock.send_to bytes dest_addr) (length bytes)

abbrev send_whole : ServerSock → ℕ → PostcardError ⊎ List ℕ → IoResult
send_whole sock client_addr (inl e) = err (postcard_to_io_err e)
send_whole sock client_addr (inr bytes) = send_packet sock bytes client_addr

-- `send_msg`, with a buffer of `room` bytes.
unfoldable pub server_send_msg : ServerSock → Server → ℕ → ℕ → IoResult
unfolding send_packet postcard_to_io_err
server_send_msg sock message client_addr room =
    send_whole sock client_addr (server_message_encode sock.postcard message room)

-- What `recv_from` answers: an error, or the bytes of a datagram and its sender.
pub data Received : Type 0 where
  failed : ErrorKind → Received
  datagram : ℕ → List ℕ → Received

-- `Result::ok`
abbrev pub decoded {ℓ κ} : {A : Type ℓ} {B : Type κ} → A ⊎ B → Option B
decoded (inl _) = none
decoded (inr x) = some x

-- How far the loop came: it waits for the next datagram, or it returned an error.
pub data Loop : Type 0 where
  waiting : Loop
  returned : ErrorKind → Loop

-- The callback `on_message`.
abbrev pub OnMessage {ℓ} : Type ℓ → Type ℓ
OnMessage S = S → ℕ → Option (Client × List ℕ) → S × IoResult

module _ {ℓ} {S : Type ℓ} (on_message : OnMessage S) (sock : ServerSock) where
  abbrev pub go_on : (S → S × Loop) → S × IoResult → S × Loop
  go_on rest (s, ok) = rest s
  go_on rest (s, err e) = (s, returned e)

  -- `start`
  unfoldable pub start : S → List Received → S × Loop
  unfolding io_err_is_timeout client_message_decode
  start s [] = (s, waiting)
  start s (failed e ∷ rest) = if io_err_is_timeout e then start s rest else (s, returned e)
  start s (datagram peer_addr bytes ∷ rest) =
      go_on (λ s'. start s' rest)
        (on_message s peer_addr (decoded (client_message_decode sock.client_postcard bytes)))
