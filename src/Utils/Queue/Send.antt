-- ===== src/Utils/Queue/Send.antt =====
-- `IndexedTx::send`: what goes into the ring buffer, and where the counter stands afterwards.
use syfala_test.Common.{
  ℕ, ◌+◌, ◌-◌, ◌≤◌, ◌≡◌, refl, ap, ◌∙◌, ◌++◌, window, length-window, arith, min, done, take_all,
}
use syfala_test.Utils.Counter.{Counter}
use syfala_test.Utils.Ring.{RingProducer}
use syfala_test.Utils.Queue.{IndexedTx, send}
use syfala_test.Utils.Queue.Shift.{pull_lem}
use syfala_test.Utils.Queue.Align.{
  InReach, checked_signed_diff-InReach, shift_iter_lem, shifted-eq-window, timeline,
}

module _ {ℓ κ μ} {A : Type ℓ} {Tx : Type κ} {C : Type μ} ⦃k : Counter C⦄
    (ring : RingProducer A Tx) where
  -- How many of `len` elements for index `idx` are written, padding included.
  unfoldable pub pushed : IndexedTx C Tx → ℕ → ℕ → ℕ
  pushed t idx len =
      min (ring.slots t.tx) (idx - k.current t.counter + (len - (k.current t.counter - idx)))

  pushed-eq :
      (t : IndexedTx C Tx) (idx len : ℕ)
      → min (ring.slots t.tx) (idx - k.current t.counter + (len - (k.current t.counter - idx)))
        ≡ pushed t idx len
  unfolding pushed
  pushed-eq t idx len = refl

  pub pushed-le : (t : IndexedTx C Tx) (idx len : ℕ) → pushed t idx len ≤ ring.slots t.tx
  pushed-le t idx len = omega (arith, pushed-eq t idx len)

  -- Where the two indices are in reach of one another and the counter can move, `send` of the
  -- elements `vals idx`, `vals (idx + 1)`, … does not panic. It appends, from the
  -- counter on, what belongs to each index: padding below `idx`, then the elements, none of them
  -- twice, as far as there are free slots. The counter moves by the elements written.
  pub send_on_timeline :
      (vals : ℕ → A) (t : IndexedTx C Tx) (idx len : ℕ) (pad : ℕ → A)
      → InReach (k.current t.counter) idx
      → (c : C) → k.advance t.counter (pushed t idx len) ≡ done c
      → let cur = k.current t.counter in
        (t' : IndexedTx C Tx) × (send ring t idx (window vals idx len) pad ≡ done t')
        × (ring.written t'.tx
            ≡ ring.written t.tx ++ window (timeline cur idx pad vals) cur (pushed t idx len))
        × (k.current t'.counter ≡ cur + pushed t idx len)
  unfolding send
  send_on_timeline vals t idx len pad reach c moved =
      let cur = k.current t.counter in
      let slots = ring.slots t.tx in
      let m = pushed t idx len in
      let out = window (timeline cur idx pad vals) cur m in
      let (yields, it) = pull_lem pad slots (idx - cur) 0 (cur - idx) (window vals idx len) in
      let what =
        yields
        ∙ shifted-eq-window pad vals slots cur idx len
        ∙ ap (window (timeline cur idx pad vals) cur) (pushed-eq t idx len) in
      let size = length-window (timeline cur idx pad vals) cur m in
      let count : (ring.fill t.tx out).1 ≡ m =
        omega (arith, ring.fill-count t.tx out, size, pushed-le t idx len) in
      let t' : IndexedTx C Tx = record { counter = c; tx = (ring.fill t.tx out).0 } in
      (
        t',
        rw (
          checked_signed_diff-InReach cur idx reach,
          shift_iter_lem cur idx (window vals idx len),
          what,
          count,
          moved,
        ),
        ring.written-fill t.tx out
            ∙ ap (◌++◌ (ring.written t.tx))
                (take_all slots out (omega (arith, size, pushed-le t idx len))),
        k.current-advance t.counter m c moved,
      )
