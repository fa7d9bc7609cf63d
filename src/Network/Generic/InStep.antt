-- ===== src/Network/Generic/InStep.antt =====
-- The deadlines and the connected servers, and what a handler does to either.
use mathlib.Core.Bool.{true≢false}
use syfala_test.Common.{
  ℕ, ◌≡◌, refl, ap, sym, ◌∙◌, ◌==◌, true, false, Option-cases, Bool-cases, inl, inr, ◌⊎◌, List,
  ==_self, ==→eq,
}
use syfala_test.Proto.Format.{StreamFormats}
use syfala_test.Proto.Message.{Client, Error, ServerConnected}
use syfala_test.Network.Context.{Context}
use syfala_test.Network.Deadlines.{DeadlineQueue}
use syfala_test.Network.ServerMap.{get, insert, is_some, contains_key, get-insert}
use syfala_test.Network.Socket.{Sock, IoResult, ok, err, ErrorKind}
use syfala_test.Network.Expire.Overdue.{InStep}
use syfala_test.Network.Generic.{
  Session, reply_to, on_server_connect_request, on_connected_message, connect_answered,
}

module _ (cb : Context) (pq : DeadlineQueue) where
  -- The deadlines are those of the connected servers.
  abbrev pub IsInStep : Session cb pq → Type 0
  IsInStep s = InStep pq s.servers s.deadlines

  -- What a handler may do before the deadline of `addr` moves: connect `addr`, but not drop it, and
  -- leave the other servers and all deadlines.
  pub record Near (addr : ℕ) (s s' : Session cb pq) : Type 0 where
    pub same : s'.deadlines ≡ s.deadlines
    pub others :
        (b : ℕ) → (b == addr) ≡ false → is_some (get b s'.servers) ≡ is_some (get b s.servers)
    pub stays : is_some (get addr s.servers) ≡ true → is_some (get addr s'.servers) ≡ true

  -- A call that went well and left the session in step, or one that failed.
  abbrev pub WentWell : Session cb pq → IoResult → Type 0
  WentWell s r = ((r ≡ ok) × IsInStep s) ⊎ ((e : ErrorKind) × (r ≡ err e))

  -- Away from `addr`, the session stays in step.
  away :
      (addr b : ℕ) (s s' : Session cb pq)
      → IsInStep s
      → Near addr s s'
      → (b == addr) ≡ false
      → is_some (get b s'.servers) ≡ is_some (pq.get_priority b s'.deadlines)
  away addr b s s' h near e =
      near.others b e ∙ h b ∙ ap (λ q. is_some (pq.get_priority b q)) (sym near.same)

  -- A server that is not there after the handler was not there before.
  was_not_there :
      (addr : ℕ) (s s' : Session cb pq)
      → Near addr s s'
      → is_some (get addr s'.servers) ≡ false
      → is_some (get addr s.servers) ≡ false
  was_not_there addr s s' near gone = elim (Bool-cases (is_some (get addr s.servers))) [
    | inl there ↦ absurd (true≢false (sym (near.stays there) ∙ gone))
    | inr absent ↦ absent
  ]

  pub push-InStep :
      (addr t : ℕ) (s s' : Session cb pq)
      → IsInStep s
      → Near addr s s'
      → is_some (get addr s'.servers) ≡ true
      → InStep pq s'.servers (pq.push addr t s'.deadlines)
  push-InStep addr t s s' h near here b = elim (Bool-cases (b == addr)) [
    | inl e ↦
        rw (pq.get_priority-push b addr t s'.deadlines, e)
          (ap (λ x. is_some (get x s'.servers)) (==→eq b addr e) ∙ here)
    | inr e ↦ rw (pq.get_priority-push b addr t s'.deadlines, e) (away addr b s s' h near e)
  ]

  pub gone-InStep :
      (addr : ℕ) (s s' : Session cb pq)
      → IsInStep s
      → Near addr s s'
      → is_some (get addr s'.servers) ≡ false
      → IsInStep s'
  gone-InStep addr s s' h near gone b = elim (Bool-cases (b == addr)) [
    | inl e ↦
        let at = ==→eq b addr e in
        let absent = was_not_there addr s s' near gone in
        ap (λ x. is_some (get x s'.servers)) at
        ∙ gone
        ∙ sym (
            ap (λ q. is_some (pq.get_priority b q)) near.same
            ∙ sym (h b)
            ∙ ap (λ x. is_some (get x s.servers)) at
            ∙ absent)
    | inr e ↦ away addr b s s' h near e
  ]

  module _ (sock : Sock) where
    reply_to-Near :
        (addr : ℕ) (s s' : Session cb pq) (m : Client)
        → Near addr s s'
        → Near addr s (reply_to cb pq sock s' m addr).0
    unfolding reply_to
    reply_to-Near addr s s' m near = record {
      same = near.same;
      others = near.others;
      stays = near.stays;
    }

    insert-Near :
        (addr : ℕ) (s s' : Session cb pq) (v : _)
        → s'.deadlines ≡ s.deadlines
        → s'.servers ≡ insert addr v s.servers
        → Near addr s s'
    insert-Near addr s s' v e e' = record {
      same = e;
      others = λ b ne. ap (λ m. is_some (get b m)) e' ∙ rw (get-insert b addr v s.servers, ne);
      stays = λ _.
          ap (λ m. is_some (get addr m)) e' ∙ rw (get-insert addr addr v s.servers, ==_self addr);
    }

    pub Near-refl : (addr : ℕ) (s : Session cb pq) → Near addr s s
    Near-refl addr s = record { same = refl; others = λ b _. refl; stays = λ e. e }

    connect_answered-Near :
        (addr : ℕ) (s : Session cb pq) (answer : (cb.Inactive ⊎ Error) × cb.Cx)
        → Near addr s (connect_answered cb pq sock s addr answer).0
    connect_answered-Near addr s (inl state, cx) =
        reply_to-Near addr s _ _ (insert-Near addr s _ _ refl refl)
    connect_answered-Near addr s (inr e, cx) =
        reply_to-Near addr s _ _ (record { same = refl; others = λ b _. refl; stays = λ e'. e' })

    pub connect-Near :
        (addr : ℕ) (s : Session cb pq) (formats : StreamFormats)
        → Near addr s (on_server_connect_request cb pq sock s addr formats).0
    unfolding on_server_connect_request
    connect-Near addr s formats = elim (Bool-cases (contains_key addr s.servers)) [
      | inl there ↦ rw there (Near-refl addr s)
      | inr absent ↦ rw absent (connect_answered-Near addr s (cb.connect s.callbacks addr formats))
    ]

    pub connected-Near :
        (addr timestamp : ℕ) (s : Session cb pq) (msg : ServerConnected) (payload : List ℕ)
        → Near addr s (on_connected_message cb pq sock s addr timestamp msg payload).0
    unfolding on_connected_message
    connected-Near addr timestamp s msg payload = elim (Option-cases (get addr s.servers)) [
      | inl absent ↦ rw (absent, on_connected_message) (Near-refl addr s)
      | inr (state, there) ↦ rw (there, on_connected_message) (insert-Near addr s _ _ refl refl)
    ]
