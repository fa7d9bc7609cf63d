-- ===== src/Utils/Queue/History.antt =====
-- Any sequence of calls of `IndexedTx::send` on a `GenericCounter` from
-- `syfala_utils/src/queue.rs`, and what the ring buffer holds after them.
use syfala_test.Common.{
  ℕ, ◌+◌, ◌<◌, ◌^◌, ◌≡◌, refl, ap, ap₂, ◌∙◌, sym, List, [], ◌∷◌, ◌++◌, window, arith, done, ◌⊎◌,
  inl, inr, ltb, if◌then◌else◌, Bool-cases, lt→ltb, le→ltb_false, window-ext, window-append,
}
use syfala_test.Utils.Counter.{GenericCounter, generic_counter}
use syfala_test.Utils.Counter.Boundaries.{generic_advance_total}
use syfala_test.Utils.Ring.{RingProducer}
use syfala_test.Utils.Queue.{IndexedTx, send, send_all}
use syfala_test.Utils.Queue.Align.{InReach, timeline}
use syfala_test.Utils.Queue.Send.{pushed, send_on_timeline}

-- The indices that the calls of a session use stay below this bound.
abbrev pub horizon : ℕ
horizon = 2 ^ 62

abbrev pub AllBelow : List (ℕ × ℕ) → Type 0
AllBelow [] = Unit {0}
AllBelow ((idx, len) ∷ calls) = (idx + len < horizon) × AllBelow calls

module _ {ℓ κ} {A : Type ℓ} {Tx : Type κ} (ring : RingProducer A Tx) (vals : ℕ → A)
    (silence : A) where
  -- Position `p` of all that was ever written holds `vals p` or silence, and the counter is the
  -- number of elements written.
  pub record IsSynced (t : IndexedTx GenericCounter Tx) : Type ℓ where
    pub content : ℕ → A
    pub written : ring.written t.tx ≡ window content 0 t.counter.value
    pub honest : (p : ℕ) → (content p ≡ vals p) ⊎ (content p ≡ silence)
    pub small : t.counter.value < horizon

  merged : ℕ → ℕ → (ℕ → A) → ℕ → A
  merged cur idx old p = if ltb p cur then old p else timeline cur idx (λ _. silence) vals p

  merged_honest :
      (cur idx : ℕ) (old : ℕ → A)
      → ((p : ℕ) → (old p ≡ vals p) ⊎ (old p ≡ silence))
      → (p : ℕ) → (merged cur idx old p ≡ vals p) ⊎ (merged cur idx old p ≡ silence)
  unfolding merged
  merged_honest cur idx old h p = elim (Bool-cases (ltb p cur)) [
    | inl e ↦ rw e (h p)
    | inr e ↦
        rw e (elim (Bool-cases (ltb p idx)) [ inl f ↦ rw f (inr refl) | inr f ↦ rw f (inl refl) ])
  ]

  window-merged :
      (cur idx m : ℕ) (old : ℕ → A)
      → window old 0 cur ++ window (timeline cur idx (λ _. silence) vals) cur m
        ≡ window (merged cur idx old) 0 (cur + m)
  unfolding merged
  window-merged cur idx m old =
      ap₂ ◌++◌
        (window-ext old (merged cur idx old) 0 0 cur λ i h. rw (lt→ltb (0 + i) cur (omega arith)))
        (window-ext (timeline cur idx (λ _. silence) vals) (merged cur idx old) cur (0 + cur) m
          λ i h.
            rw (le→ltb_false (0 + cur + i) cur (omega arith))
              (ap (timeline cur idx (λ _. silence) vals) (omega arith)))
      ∙ window-append (merged cur idx old) 0 cur m

  pushed-small :
      (t : IndexedTx GenericCounter Tx) (idx len : ℕ)
      → t.counter.value < horizon
      → idx + len < horizon
      → t.counter.value + pushed ring t idx len < horizon
  unfolding pushed
  pushed-small t idx len h h' = omega arith

  pub send-IsSynced :
      (t : IndexedTx GenericCounter Tx) (idx len : ℕ)
      → IsSynced t
      → idx + len < horizon
      → (t' : IndexedTx GenericCounter Tx) × (send ring t idx (window vals idx len) (λ _. silence)
          ≡ done t')
        × IsSynced t'
  send-IsSynced t idx len s below =
      let cur = t.counter.value in
      let small = pushed-small t idx len s.small below in
      let m = pushed ring t idx len in
      let (t', run, wrote, at) =
        send_on_timeline ring vals t idx len (λ _. silence) (reach s.small below)
          (record { value = cur + m }) (generic_advance_total t.counter m (omega arith)) in
      (
        t',
        run,
        record {
          content = merged cur idx s.content;
          written =
              wrote
              ∙ ap (λ w. w ++ window (timeline cur idx (λ _. silence) vals) cur m) s.written
              ∙ window-merged cur idx m s.content
              ∙ ap (window (merged cur idx s.content) 0) (sym at);
          honest = merged_honest cur idx s.content s.honest;
          small = omega (arith, at);
        },
      )
    where
      reach : t.counter.value < horizon → idx + len < horizon → InReach t.counter.value idx
      reach h h' = omega arith

  -- From a synced sender, any calls of `send` with stretches of `vals` whose indices stay below the
  -- horizon run without panic, and leave the sender synced: each position of what was written holds
  -- the element of that index or silence, whatever gaps, overlaps and full buffers there were.
  pub send_all-IsSynced :
      (t : IndexedTx GenericCounter Tx) (calls : List (ℕ × ℕ))
      → IsSynced t
      → AllBelow calls
      → (t' : IndexedTx GenericCounter Tx) × (send_all ring vals (λ _. silence) t calls ≡ done t')
        × IsSynced t'
  unfolding send_all
  send_all-IsSynced t [] s below = (t, refl, s)
  send_all-IsSynced t ((idx, len) ∷ calls) s below =
      let (t₁, first, s₁) = send-IsSynced t idx len s below.0 in
      let (t₂, rest, s₂) = send_all-IsSynced t₁ calls s₁ below.1 in (t₂, rw first rest, s₂)
