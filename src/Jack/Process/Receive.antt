-- ===== src/Jack/Process/Receive.antt =====
-- What a receiver writes to the output ports in a cycle of JACK.
use syfala_test.Common.{
  ℕ, zero, suc, ◌+◌, ◌-◌, ◌*◌, ◌/◌, ◌%◌, ◌<◌, ◌≤◌, ◌≡◌, refl, sym, ap, ◌∙◌, min, done, u64_mod, ◌∷◌,
  length-window, window, arith, lt→ltb,
}
use syfala_test.Utils.Counter.{GenericCounter, generic_counter}
use syfala_test.Utils.Counter.Boundaries.{generic_advance_total}
use syfala_test.Utils.Ring.{RingConsumer}
use syfala_test.Utils.Queue.Align.{InReach, timeline, consumed, consumed-le}
use syfala_test.Utils.Queue.Recv.{recv_on_timeline}
use syfala_test.Jack.Interleaver.Cells.{nth}
use syfala_test.Jack.Process.{Interleaver, ProcessScope, JackRx, Write, assign, process_rx}
use syfala_test.Jack.Process.Transmit.{IsSmall, references-eq}

module _ {ℓ} {A : Type ℓ} (i : Interleaver) (f : ℕ → A) (idx : ℕ) where
  -- The write number `k` of a cycle.
  abbrev pub nth_write : ℕ → Write A
  nth_write k = ((i.port (k % i.n_ports), k / i.n_ports), f (idx + k))

  assign-window :
      (a m c : ℕ)
      → c ≤ m
      → assign i (window (nth i.n_ports) a m) (window f (idx + a) c) ≡ window nth_write a c
  assign-window a zero zero h = refl
  assign-window a (suc m) zero h = refl
  assign-window a zero (suc c) h = elim h [ ]
  assign-window a (suc m) (suc c) h =
      let next : suc (idx + a) ≡ idx + suc a = omega arith in
      ap (λ j. nth_write a ∷ assign i (window (nth i.n_ports) (suc a) m) (window f j c)) next
      ∙ ap (λ xs. nth_write a ∷ xs) (assign-window (suc a) m c (omega arith))

module _ {ℓ κ} {A : Type ℓ} {Rx : Type κ} (ring : RingConsumer A Rx) (silence : A) where
  -- A cycle on a receiver of at least one port, whose queue holds the next `len` elements of the
  -- stream `stream` at its counter, where the cycle's first index is in reach of the counter and no
  -- index reaches 2^64: the receiver does not panic. The frame `f` of port number `p` of the
  -- cycle is given the element of the stream with the index of that port and frame, or silence if
  -- that is before the counter, in order up to the end of the buffers or of the queue. Nothing is
  -- written to the frames after the end of a queue that is too short. The queue then holds the rest of the stream at the new counter.
  pub process_rx_lem :
      (scope : ProcessScope A) (frame_idx : ℕ) (r : JackRx GenericCounter Rx) (stream : ℕ → A)
      (len : ℕ)
      → IsSmall r.interleaver scope
      → ring.readable r.rx.rx ≡ window stream r.rx.counter.value len
      → let i = r.interleaver in
        let idx = frame_idx * i.n_ports in
        let cur = r.rx.counter.value in
        let total = scope.n_frames * i.n_ports in
        InReach idx cur
        → idx < u64_mod
        → cur + len < u64_mod
        → (r' : JackRx GenericCounter Rx) × (process_rx ring silence scope frame_idx r
            ≡ done (
              window
                  (nth_write i (timeline idx cur (λ _. silence) stream) idx)
                  0
                  (min total (cur - idx + (len - (idx - cur)))),
              r',
            ))
          × (r'.interleaver ≡ i)
          × (ring.readable r'.rx.rx
              ≡ window stream r'.rx.counter.value (len - (r'.rx.counter.value - cur)))
  unfolding process_rx
  process_rx_lem scope frame_idx r stream len b carries reach low fits =
      let i = r.interleaver in
      let idx = frame_idx * i.n_ports in
      let cur = r.rx.counter.value in
      let total = scope.n_frames * i.n_ports in
      let used = consumed total (cur - idx) (idx - cur) len in
      let moved =
        generic_advance_total r.rx.counter used
          (omega (arith, consumed-le total (cur - idx) (idx - cur) len)) in
      let (rx', run, at, rest) =
        recv_on_timeline ring stream r.rx idx (λ _. silence) total len carries reach
          (record { value = cur + used }) moved in
      let count = min total (cur - idx + (len - (idx - cur))) in
      let f = timeline idx cur (λ _. silence) stream in
      let start : idx + 0 ≡ idx = omega arith in
      let writes =
        ap (λ j. assign i (window (nth i.n_ports) 0 total) (window f j count)) (sym start)
        ∙ assign-window i f idx 0 total count (omega arith) in
      let used-eq : used ≡ rx'.counter.value - cur = omega (arith, at) in
      let r' : JackRx GenericCounter Rx = record { rx = rx'; interleaver = i } in
      (
        r',
        rw
            (
              lt→ltb idx u64_mod low,
              references-eq i scope b,
              length-window (nth i.n_ports) 0 total,
              run,
            )
            (ap (λ o. done (o, r')) writes),
        refl,
        rest ∙ ap (λ n. window stream rx'.counter.value (len - n)) used-eq,
      )
