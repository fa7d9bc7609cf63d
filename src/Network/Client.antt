-- ===== src/Network/Client.antt =====
-- The receive loop of `Client` and the discovery beacon of `ClientSocket`,
-- `syfala_network/src/udp/client/mod.rs`. What the socket answers, one call after the other, is a
-- list.
pub mod Runs
use syfala_test.Common.{
  ℕ, Bool, true, false, List, [], ◌∷◌, ◌++◌, ◌⊎◌, inl, inr, Option, none, some, if◌then◌else◌,
  Outcome, done, ◌>>=◌,
}
use syfala_test.Proto.Message.{Client, Server}
use syfala_test.Network.Wire.{
  PostcardError, Postcard, ServerMessageFlat, server_message_decode, client_message_encode,
}
use syfala_test.Network.Socket.{
  Packet, Sock, ErrorKind, IoResult, ok, err, postcard_to_io_err, io_err_is_timeout,
}
use syfala_test.Network.Server.{Loop, waiting, returned, decoded}

-- What `recv` of a `SyncUdpSock` answers: an error, at some instant, or a datagram with the address
-- of its sender and the instant of its reception.
pub data Received : Type 0 where
  failed : ErrorKind → ℕ → Received
  datagram : ℕ → ℕ → List ℕ → Received

module _ {ℓ} {S : Type ℓ}
    (on_message : S → ℕ → ℕ → Option (Server × List ℕ) → Outcome (S × IoResult))
    (on_timeout : ℕ → S → Outcome (S × IoResult)) (postcard : Postcard ServerMessageFlat) where
  abbrev pub go_on : (S → Outcome (S × Loop)) → S × IoResult → Outcome (S × Loop)
  go_on rest (s, ok) = rest s
  go_on rest (s, err e) = done (s, returned e)

  -- One round of the loop, whose further rounds are `rest`.
  unfoldable pub round : (S → Outcome (S × Loop)) → S → Received → Outcome (S × Loop)
  unfolding io_err_is_timeout server_message_decode
  round rest s (datagram addr timestamp bytes) =
      on_message s addr timestamp (decoded (server_message_decode postcard bytes)) >>= go_on rest
  round rest s (failed e now) =
      if io_err_is_timeout e then on_timeout now s >>= go_on rest else done (s, returned e)

  -- `start`
  unfoldable pub start : S → List Received → Outcome (S × Loop)
  unfolding round
  start s [] = done (s, waiting)
  start s (event ∷ events) = round (λ s'. start s' events) s event

module _ (sock : Sock) (addr : ℕ) where
  -- The loop of `start_discovery_beacon`: what the sends answer, and the packets sent.
  unfoldable pub beacon : Packet → List IoResult → List Packet → List Packet × Loop
  unfolding io_err_is_timeout
  beacon packet [] log = (log, waiting)
  beacon packet (ok ∷ results) log = beacon packet results (log ++ packet ∷ [])
  beacon packet (err e ∷ results) log =
      if io_err_is_timeout e then beacon packet results log else (log, returned e)

  abbrev beacon_of : PostcardError ⊎ List ℕ → List IoResult → List Packet → List Packet × Loop
  beacon_of (inl e) results log = (log, returned (postcard_to_io_err e))
  beacon_of (inr bytes) results log =
      beacon (record { dest_addr = addr; bytes = bytes }) results log

  -- `start_discovery_beacon`
  unfoldable pub start_discovery_beacon : List IoResult → List Packet → List Packet × Loop
  unfolding beacon postcard_to_io_err
  start_discovery_beacon results log =
      beacon_of (client_message_encode sock.postcard Client.discovery 2000) results log
