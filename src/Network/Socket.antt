-- ===== src/Network/Socket.antt =====
-- Sockets and their errors: `SyncUdpSock` and the error helpers of `syfala_network/src/lib.rs`, and
-- `ClientSocket` of `syfala_network/src/udp/client/mod.rs`. An address is a number.
use syfala_test.Common.{
  ℕ, Bool, true, false, List, [], ◌∷◌, ◌++◌, Option, ◌⊎◌, inl, inr, if◌then◌else◌, ◌==◌,
}
use syfala_test.Proto.Message.{Client}
use syfala_test.Network.Wire.{
  PostcardError, deserialize_unexpected_end, Postcard, ClientMessageFlat, client_message_encode,
}

-- `std::io::ErrorKind`: the kinds that the source names, and any other one.
pub data ErrorKind : Type 0 where
  would_block timed_out unexpected_eof file_too_large other : ErrorKind
  kind : ℕ → ErrorKind

unfoldable pub postcard_to_io_err : PostcardError → ErrorKind
postcard_to_io_err deserialize_unexpected_end = unexpected_eof
postcard_to_io_err _ = other

unfoldable pub io_err_is_timeout : ErrorKind → Bool
io_err_is_timeout would_block = true
io_err_is_timeout timed_out = true
io_err_is_timeout _ = false

-- `std::io::Result<()>`
pub data IoResult : Type 0 where
  ok : IoResult
  err : ErrorKind → IoResult

-- `send` of `UdpSocket` after `send_to`, and `send_packet` of `ServerSocket`: a datagram that was
-- not sent whole is an error.
unfoldable pub whole_datagram : ErrorKind ⊎ ℕ → ℕ → IoResult
whole_datagram (inl e) len = err e
whole_datagram (inr n) len = if n == len then ok else err file_too_large

pub record Packet : Type 0 where
  pub dest_addr : ℕ
  pub bytes : List ℕ

-- The socket of a client, `T: SyncUdpSock`: what `send` answers after the packets that were sent
-- before, and what `set_recv_timeout` answers.
pub record Sock : Type 0 where
  pub send : List Packet → Packet → IoResult
  pub set_recv_timeout : Option ℕ → IoResult
  pub postcard : Postcard ClientMessageFlat

abbrev deliver : List Packet → Packet → IoResult → List Packet × IoResult
deliver log p ok = (log ++ p ∷ [], ok)
deliver log p (err e) = (log, err e)

abbrev send_encoded : Sock → ℕ → List Packet → PostcardError ⊎ List ℕ → List Packet × IoResult
send_encoded sock addr log (inl e) = (log, err (postcard_to_io_err e))
send_encoded sock addr log (inr bytes) =
    let p : Packet = record { dest_addr = addr; bytes = bytes } in deliver log p (sock.send log p)

-- `ClientSocket::send_msg`, with a buffer of `room` bytes. `log` holds the packets sent so far.
unfoldable pub send_msg : Sock → Client → ℕ → ℕ → List Packet → List Packet × IoResult
unfolding postcard_to_io_err
send_msg sock message addr room log =
    send_encoded sock addr log (client_message_encode sock.postcard message room)
