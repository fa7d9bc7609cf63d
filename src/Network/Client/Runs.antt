-- ===== src/Network/Client/Runs.antt =====
-- The receive loop of a client that hands its callbacks on to a `GenericClient`.
use syfala_test.Common.{
  ℕ, ◌+◌, ◌≤◌, ◌≡◌, refl, List, [], ◌∷◌, ◌⊎◌, inl, inr, Bool-cases, Outcome, done, ◌>>=◌,
}
use syfala_test.Network.Context.{Context}
use syfala_test.Network.Deadlines.{DeadlineQueue}
use syfala_test.Network.Wire.{Postcard, ServerMessageFlat}
use syfala_test.Network.Socket.{Sock, ErrorKind, IoResult, ok, err, io_err_is_timeout}
use syfala_test.Network.Server.{Loop, waiting, returned}
use syfala_test.Network.Expire.{conn_timeout}
use syfala_test.Network.Generic.{Session, on_message, on_timeout}
use syfala_test.Network.Generic.InStep.{IsInStep, WentWell}
use syfala_test.Network.Generic.Messages.{on_message-Handles, Handles}
use syfala_test.Network.Generic.Timeouts.{on_timeout_drops_overdue}
use syfala_test.Network.Client.{Received, failed, datagram, go_on, start}

-- The clock is far from its end at every datagram.
pub data InTime (last : ℕ) : List Received → Type 0 where
  nothing : InTime last []
  after_error :
      (e : ErrorKind) (now : ℕ) (events : List Received)
      → InTime last events
      → InTime last (failed e now ∷ events)
  after_datagram :
      (addr timestamp : ℕ) (bytes : List ℕ) (events : List Received)
      → timestamp + conn_timeout ≤ last
      → InTime last events
      → InTime last (datagram addr timestamp bytes ∷ events)

module _ (cb : Context) (pq : DeadlineQueue) (sock : Sock) (last : ℕ)
    (postcard : Postcard ServerMessageFlat) where
  -- The loop over a `GenericClient`.
  unfoldable pub run : Session cb pq → List Received → Outcome (Session cb pq × Loop)
  unfolding start
  run s events = start (on_message cb pq sock last) (on_timeout cb pq sock) postcard s events

  -- The loop waits, in step, or it has returned an error.
  abbrev pub RunsTo : Outcome (Session cb pq × Loop) → Type 0
  RunsTo o =
      (s : Session cb pq) × (l : Loop) × (o ≡ done (s, l))
      × (((l ≡ waiting) × IsInStep cb pq s) ⊎ ((e : ErrorKind) × (l ≡ returned e)))

  go_on-RunsTo :
      (rest : Session cb pq → Outcome (Session cb pq × Loop))
      (o : Outcome (Session cb pq × IoResult))
      → Handles cb pq sock last o
      → ((s : Session cb pq) → IsInStep cb pq s → RunsTo (rest s))
      → RunsTo (o >>= go_on (on_message cb pq sock last) (on_timeout cb pq sock) postcard rest)
  go_on-RunsTo rest o (s, r, run_o, inl (good, h)) next = rw (run_o, good) (next s h)
  go_on-RunsTo rest o (s, r, run_o, inr (e, bad)) next =
      (s, returned e, rw (run_o, bad), inr (e, refl))

  in_step-WentWell : (s : Session cb pq) (r : IoResult) → IsInStep cb pq s → WentWell cb pq s r
  in_step-WentWell s ok h = inl (refl, h)
  in_step-WentWell s (err e) h = inr (e, refl)

  timeout-Handles :
      (now : ℕ) (s : Session cb pq)
      → IsInStep cb pq s
      → Handles cb pq sock last (on_timeout cb pq sock now s)
  timeout-Handles now s h =
      let (s', r, run_o, h', _, _) = on_timeout_drops_overdue cb pq sock now s h in
      (s', r, run_o, in_step-WentWell s' r h')

  -- Whatever datagrams and errors the socket delivers, in whatever order, the receive loop over a
  -- client in step never panics as long as the deadlines can be represented: it waits for the next
  -- datagram with the deadlines those of the connected servers, or it has returned an error.
  pub run-RunsTo :
      (s : Session cb pq) (events : List Received)
      → IsInStep cb pq s
      → InTime last events
      → RunsTo (run s events)
  unfolding run
  run-RunsTo s _ h nothing = (s, waiting, refl, inl (refl, h))
  run-RunsTo s _ h (after_error e now events t) = elim (Bool-cases (io_err_is_timeout e)) [
    | inl timeout ↦
        rw (timeout, run)
          (go_on-RunsTo _ _ (timeout-Handles now s h) λ s' h'. run-RunsTo s' events h' t)
    | inr other ↦ (s, returned e, rw (other, run), inr (e, refl))
  ]
  run-RunsTo s _ h (after_datagram addr timestamp bytes events fits t) =
      go_on-RunsTo _ _ (on_message-Handles cb pq sock last s addr timestamp _ h fits)
        λ s' h'. run-RunsTo s' events h' t
