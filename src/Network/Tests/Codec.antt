-- ===== src/Network/Tests/Codec.antt =====
-- A concrete encoding of flat messages, and the round trips at it.
use syfala_test.Common.{
  ℕ, zero, suc, ◌≡◌, refl, Option, none, some, if◌then◌else◌, leb, List, [], ◌∷◌, ◌++◌, length,
  get_elem?, arith, inl, inr, ◌⊎◌,
}
use syfala_test.Proto.Message.{AudioMessageHeader}
use syfala_test.Network.Wire.{
  PostcardError, other, ClientMessageFlat, discovery, connection_success, connection_failed,
  connection_refused, start_io, stop_io, ServerMessageFlat, connect, start_io_failed,
  start_io_refused, start_io_success, stop_io_failed, stop_io_refused, stop_io_success, Postcard,
}

-- The bytes of a flat message: an audio header is 0 and its fields, any other one is its number.
abbrev pub client_bytes : ClientMessageFlat → List ℕ
client_bytes (ClientMessageFlat.audio_header s b n) = 0 ∷ s ∷ b ∷ n ∷ []
client_bytes discovery = 1 ∷ []
client_bytes connection_success = 2 ∷ []
client_bytes connection_failed = 3 ∷ []
client_bytes connection_refused = 4 ∷ []
client_bytes start_io = 5 ∷ []
client_bytes stop_io = 6 ∷ []
client_bytes ClientMessageFlat.disconnect = 7 ∷ []
client_bytes ClientMessageFlat.heartbeat = 8 ∷ []

abbrev pub client_plain : List ClientMessageFlat
client_plain =
    discovery ∷ connection_success ∷ connection_failed ∷ connection_refused ∷ start_io ∷ stop_io
    ∷ ClientMessageFlat.disconnect ∷ ClientMessageFlat.heartbeat ∷ []

abbrev pub numbered {ℓ} : {M : Type ℓ} → List ℕ → Option M → PostcardError ⊎ (M × List ℕ)
numbered rest none = inl other
numbered rest (some m) = inr (m, rest)

abbrev pub client_of_bytes : List ℕ → PostcardError ⊎ (ClientMessageFlat × List ℕ)
client_of_bytes (zero ∷ s ∷ b ∷ n ∷ rest) = inr (ClientMessageFlat.audio_header s b n, rest)
client_of_bytes (suc k ∷ rest) = numbered rest (get_elem? client_plain k)
client_of_bytes _ = inl other

abbrev pub fit : ℕ → List ℕ → PostcardError ⊎ List ℕ
fit room bytes = if leb (length bytes) room then inr bytes else inl other

pub fits : (room : ℕ) (bytes out : List ℕ) → fit room bytes ≡ inr out → out ≡ bytes
fits room bytes out e = ground arith

pub client_bytes_read :
    (m : ClientMessageFlat) (rest : List ℕ)
    → client_of_bytes (client_bytes m ++ rest) ≡ inr (m, rest)
client_bytes_read discovery rest = refl
client_bytes_read connection_success rest = refl
client_bytes_read _ rest = refl

abbrev pub client_codec : Postcard ClientMessageFlat
client_codec = record {
  to_io = λ m room. fit room (client_bytes m);
  deserialize = client_of_bytes;
  deserialize-to_io =
      λ m room bytes rest e. rw (fits room (client_bytes m) bytes e) (client_bytes_read m rest);
}

-- The same for servers. No stream formats fit its buffer.
abbrev pub server_bytes : ServerMessageFlat → Option (List ℕ)
server_bytes (connect _) = none
server_bytes (ServerMessageFlat.audio_header s b n) = some (0 ∷ s ∷ b ∷ n ∷ [])
server_bytes start_io_failed = some (1 ∷ [])
server_bytes start_io_refused = some (2 ∷ [])
server_bytes start_io_success = some (3 ∷ [])
server_bytes stop_io_failed = some (4 ∷ [])
server_bytes stop_io_refused = some (5 ∷ [])
server_bytes stop_io_success = some (6 ∷ [])
server_bytes ServerMessageFlat.disconnect = some (7 ∷ [])
server_bytes ServerMessageFlat.heartbeat = some (8 ∷ [])

abbrev pub server_plain : List ServerMessageFlat
server_plain =
    start_io_failed ∷ start_io_refused ∷ start_io_success ∷ stop_io_failed ∷ stop_io_refused
    ∷ stop_io_success ∷ ServerMessageFlat.disconnect ∷ ServerMessageFlat.heartbeat ∷ []

abbrev pub server_of_bytes : List ℕ → PostcardError ⊎ (ServerMessageFlat × List ℕ)
server_of_bytes (zero ∷ s ∷ b ∷ n ∷ rest) = inr (ServerMessageFlat.audio_header s b n, rest)
server_of_bytes (suc k ∷ rest) = numbered rest (get_elem? server_plain k)
server_of_bytes _ = inl other

abbrev pub fit_some : ℕ → Option (List ℕ) → PostcardError ⊎ List ℕ
fit_some room none = inl other
fit_some room (some bytes) = fit room bytes

pub server_bytes_read :
    (m : ServerMessageFlat) (room : ℕ) (bytes rest : List ℕ)
    → fit_some room (server_bytes m) ≡ inr bytes
    → server_of_bytes (bytes ++ rest) ≡ inr (m, rest)
server_bytes_read (connect f) room bytes rest e = cc
server_bytes_read (ServerMessageFlat.audio_header s b n) room bytes rest e =
    rw (fits room (0 ∷ s ∷ b ∷ n ∷ []) bytes e) refl
server_bytes_read start_io_failed room bytes rest e = rw (fits room (1 ∷ []) bytes e) refl
server_bytes_read start_io_refused room bytes rest e = rw (fits room (2 ∷ []) bytes e) refl
server_bytes_read start_io_success room bytes rest e = rw (fits room (3 ∷ []) bytes e) refl
server_bytes_read stop_io_failed room bytes rest e = rw (fits room (4 ∷ []) bytes e) refl
server_bytes_read stop_io_refused room bytes rest e = rw (fits room (5 ∷ []) bytes e) refl
server_bytes_read stop_io_success room bytes rest e = rw (fits room (6 ∷ []) bytes e) refl
server_bytes_read ServerMessageFlat.disconnect room bytes rest e =
    rw (fits room (7 ∷ []) bytes e) refl
server_bytes_read ServerMessageFlat.heartbeat room bytes rest e =
    rw (fits room (8 ∷ []) bytes e) refl

abbrev pub server_codec : Postcard ServerMessageFlat
server_codec = record {
  to_io = λ m room. fit_some room (server_bytes m);
  deserialize = server_of_bytes;
  deserialize-to_io = server_bytes_read;
}

abbrev pub header : AudioMessageHeader
header = record { stream_idx = 1; stream_msg = record { byte_idx = 700; n_bytes = 64 } }
