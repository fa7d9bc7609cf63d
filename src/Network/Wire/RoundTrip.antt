-- ===== src/Network/Wire/RoundTrip.antt =====
-- Flat messages and back, and messages over the wire.
use syfala_test.Common.{ℕ, ◌≡◌, refl, ap, List, ◌++◌, inr, arith}
use syfala_test.Proto.Message.{Client, Server}
use syfala_test.Network.Wire.{
  ClientMessageFlat, discovery, client_of_flat, flat_of_client, ServerMessageFlat, connect,
  server_of_flat, flat_of_server, Postcard, client_message_encode, client_message_decode,
}

pub client_of_flat-flat_of_client : (m : Client) → client_of_flat (flat_of_client m) ≡ m
unfolding client_of_flat flat_of_client
client_of_flat-flat_of_client m = ground arith

pub flat_of_client-client_of_flat : (m : ClientMessageFlat) → flat_of_client (client_of_flat m) ≡ m
unfolding client_of_flat flat_of_client
flat_of_client-client_of_flat discovery = refl
flat_of_client-client_of_flat _ = refl

pub server_of_flat-flat_of_server : (m : Server) → server_of_flat (flat_of_server m) ≡ m
unfolding server_of_flat flat_of_server
server_of_flat-flat_of_server m = ground arith

pub flat_of_server-server_of_flat : (m : ServerMessageFlat) → flat_of_server (server_of_flat m) ≡ m
unfolding server_of_flat flat_of_server
flat_of_server-server_of_flat (connect f) = refl
flat_of_server-server_of_flat _ = refl

pub client_message_round_trip :
    (c : Postcard ClientMessageFlat) (m : Client) (room : ℕ) (bytes rest : List ℕ)
    → client_message_encode c m room ≡ inr bytes
    → client_message_decode c (bytes ++ rest) ≡ inr (m, rest)
unfolding client_message_encode client_message_decode
client_message_round_trip c m room bytes rest e =
    rw (c.deserialize-to_io _ room bytes rest e)
      (ap (λ n. inr (n, rest)) (client_of_flat-flat_of_client m))
