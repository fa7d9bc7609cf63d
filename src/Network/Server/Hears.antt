-- ===== src/Network/Server/Hears.antt =====
-- The server's loop on datagrams that hold messages of clients.
use syfala_test.Common.{ℕ, ◌≡◌, refl, List, [], ◌∷◌, ◌++◌, inr, some, true}
use syfala_test.Proto.Message.{Client}
use syfala_test.Network.Wire.{client_message_encode}
use syfala_test.Network.Wire.RoundTrip.{client_message_round_trip}
use syfala_test.Network.Socket.{ErrorKind, IoResult, io_err_is_timeout}
use syfala_test.Network.Server.{
  ServerSock, Received, failed, datagram, Loop, waiting, OnMessage, go_on, start,
}

-- A message of a client: its address, the message, and the payload after it.
abbrev pub Sent : Type 0
Sent = ℕ × Client × List ℕ

module _ {ℓ} {S : Type ℓ} (on_message : OnMessage S) (sock : ServerSock) (room : ℕ) where
  -- The datagrams are the messages in order, encoded and followed by their payloads, with timeouts
  -- between them.
  pub data Carries : List Sent → List Received → Type 0 where
    nothing : Carries [] []
    pause :
        (e : ErrorKind) (sent : List Sent) (received : List Received)
        → io_err_is_timeout e ≡ true
        → Carries sent received
        → Carries sent (failed e ∷ received)
    message :
        (addr : ℕ) (m : Client) (bytes payload : List ℕ) (sent : List Sent)
        (received : List Received)
        → client_message_encode sock.client_postcard m room ≡ inr bytes
        → Carries sent received
        → Carries ((addr, m, payload) ∷ sent) (datagram addr (bytes ++ payload) ∷ received)

  -- The callback on each message, up to the first error.
  pub handle_all : S → List Sent → S × Loop
  handle_all s [] = (s, waiting)
  handle_all s ((addr, m, payload) ∷ sent) =
      go_on on_message sock (λ s'. handle_all s' sent) (on_message s addr (some (m, payload)))

  step-same :
      (f g : S → S × Loop) (r : S × IoResult)
      → ((s : S) → f s ≡ g s)
      → go_on on_message sock f r ≡ go_on on_message sock g r
  step-same f g (s, IoResult.ok) same = same s
  step-same f g (s, IoResult.err e) same = refl

  -- When the socket delivers datagrams that hold, in order, messages that were encoded by a client
  -- and followed by payloads, with any timeouts between them, then the server's loop calls its
  -- callback with exactly these messages and payloads, in order, up to the callback's first error.
  pub start-hears :
      (s : S) (sent : List Sent) (received : List Received)
      → Carries sent received
      → start on_message sock s received ≡ handle_all s sent
  unfolding start handle_all
  start-hears s _ _ nothing = refl
  start-hears s _ _ (pause e sent received timeout c) = rw timeout (start-hears s sent received c)
  start-hears s _ _ (message addr m bytes payload sent received encoded c) =
      rw (client_message_round_trip sock.client_postcard m room bytes payload encoded)
        (step-same _ _ (on_message s addr (some (m, payload))) λ s'. start-hears s' sent received c)
