-- ===== src/Utils/Queue/Recv.antt =====
-- `IndexedRx::recv`: which elements the caller gets, and where the counter stands afterwards.
use syfala_test.Common.{
  ℕ, ◌+◌, ◌-◌, ◌≡◌, ap, ◌∙◌, sym, List, ◌++◌, length, window, length-window, drop-window, take,
  drop, min, done, ◌>>=◌, Outcome-cases, inl, inr, le→ltb_false,
}
use syfala_test.Utils.Counter.{Counter, generic_counter}
use syfala_test.Utils.Ring.{RingConsumer}
use syfala_test.Utils.Queue.{IndexedRx, drop_iter, recv}
use syfala_test.Utils.Queue.Shift.{pull_lem}
use syfala_test.Utils.Queue.Align.{
  InReach, checked_signed_diff-InReach, shift_iter_lem, shifted-eq-window, timeline, consumed,
  left_lem,
}

module _ {ℓ κ μ} {A : Type ℓ} {Rx : Type κ} {C : Type μ} ⦃k : Counter C⦄
    (ring : RingConsumer A Rx) where
  abbrev taken : IndexedRx C Rx → ℕ → ℕ → ℕ
  taken r idx n =
      consumed n (k.current r.counter - idx) (idx - k.current r.counter)
        (length (ring.readable r.rx))

  abbrev shifted : IndexedRx C Rx → ℕ → (ℕ → A) → ℕ → List A
  shifted r idx pad n = take n (
      window pad 0 (k.current r.counter - idx)
      ++ drop (idx - k.current r.counter) (ring.readable r.rx))

  -- `recv` as one equation.
  recv-eq :
      (r : IndexedRx C Rx) (idx : ℕ) (pad : ℕ → A) (n : ℕ)
      → InReach idx (k.current r.counter)
      → recv ring r idx pad n ≡ (
          k.advance r.counter (taken r idx n) >>= λ counter. done (
            shifted r idx pad n,
            record { rx = ring.commit r.rx (taken r idx n); counter = counter },
          ))
  unfolding recv drop_iter
  recv-eq r idx pad n reach =
      let cur = k.current r.counter in
      let xs = ring.readable r.rx in
      let (out, it) = pull_lem pad n (cur - idx) 0 (idx - cur) xs in
      let (what, count, le) = left_lem n (cur - idx) (idx - cur) xs in
      elim (Outcome-cases (k.advance r.counter (taken r idx n))) [
        | inl panic ↦ rw (
          checked_signed_diff-InReach idx cur reach,
          shift_iter_lem idx cur xs,
          it,
          le→ltb_false _ _ le,
          count,
          panic,
        )
        | inr (c, moved) ↦ rw (
          checked_signed_diff-InReach idx cur reach,
          shift_iter_lem idx cur xs,
          it,
          le→ltb_false _ _ le,
          count,
          moved,
          out,
        )
      ]

  -- On a receiver whose buffer holds the next `len` elements of the stream `stream` at its counter,
  -- where `idx` and the counter are in reach of one another and the counter can move by the elements
  -- used: `recv` does not panic. A caller that asks for `n` elements gets the stream's elements
  -- from index `idx` on, with padding in place of those before the counter, up to `n` or to the end
  -- of the buffer. The counter moves by the elements used up, and the buffer holds the rest of the
  -- stream at the new counter.
  pub recv_on_timeline :
      (stream : ℕ → A) (r : IndexedRx C Rx) (idx : ℕ) (pad : ℕ → A) (n len : ℕ)
      → ring.readable r.rx ≡ window stream (k.current r.counter) len
      → InReach idx (k.current r.counter)
      → (c : C)
      → k.advance r.counter (consumed n (k.current r.counter - idx) (idx - k.current r.counter) len)
        ≡ done c
      → let cur = k.current r.counter in
        let used = consumed n (cur - idx) (idx - cur) len in
        (r' : IndexedRx C Rx) × (recv ring r idx pad n
          ≡ done (
            window (timeline idx cur pad stream) idx (min n (cur - idx + (len - (idx - cur)))),
            r',
          ))
        × (k.current r'.counter ≡ cur + used)
        × (ring.readable r'.rx ≡ window stream (k.current r'.counter) (len - used))
  recv_on_timeline stream r idx pad n len carries reach c moved =
      let cur = k.current r.counter in
      let used = consumed n (cur - idx) (idx - cur) len in
      let size = ap length carries ∙ length-window stream cur len in
      let used-eq = ap (consumed n (cur - idx) (idx - cur)) size in
      let at = k.current-advance r.counter used c moved in
      let r' : IndexedRx C Rx = record { rx = ring.commit r.rx used; counter = c } in
      let out =
        ap (λ xs. take n (window pad 0 (cur - idx) ++ drop (idx - cur) xs)) carries
        ∙ shifted-eq-window pad stream n idx cur len in
      (
        r',
        recv-eq r idx pad n reach ∙ rw (used-eq, moved) (ap (λ o. done (o, r')) out),
        at,
        ring.readable-commit r.rx used
            ∙ ap (drop used) carries
            ∙ drop-window stream cur len used
            ∙ ap (λ b. window stream b (len - used)) (sym at),
      )
