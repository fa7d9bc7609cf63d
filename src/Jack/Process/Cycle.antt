-- ===== src/Jack/Process/Cycle.antt =====
-- A whole cycle of the process callback, over all senders and receivers.
use syfala_test.Common.{
  ℕ, ◌+◌, ◌-◌, ◌*◌, ◌<◌, ◌≤◌, ◌≡◌, refl, done, u64_mod, List, [], ◌∷◌, ◌++◌, some, window, Each,
  le→ltb_false,
}
use syfala_test.Utils.Counter.{GenericCounter, generic_counter}
use syfala_test.Utils.Ring.{RingConsumer, RingProducer}
use syfala_test.Utils.Queue.Align.{InReach}
use syfala_test.Utils.Queue.History.{IsSynced, horizon}
use syfala_test.Jack.Process.{
  ProcessScope, JackTx, JackRx, Write, DuplexProcessHandler, process_txs, process_rx, process_rxs,
  process, get_or_init,
}
use syfala_test.Jack.Process.Transmit.{IsSmall, Captures, stream, process_tx-IsSynced}
use syfala_test.Jack.Process.Receive.{process_rx_lem}

module _ {ℓ κ μ} {A : Type ℓ} {Tx : Type κ} {Rx : Type μ} (out_ring : RingProducer A Tx)
    (in_ring : RingConsumer A Rx) (silence : A) (audio : ℕ → ℕ → A) where
  -- A sender whose queue is in step with the audio of its ports.
  abbrev pub InTune : JackTx GenericCounter Tx → Type ℓ
  InTune t = IsSynced out_ring (stream audio t.interleaver) silence t.tx

  -- A sender that a cycle finds in tune, with indices below the horizon.
  pub record TxReady (scope : ProcessScope A) (frame_idx : ℕ) (t : JackTx GenericCounter Tx)
      : Type ℓ where
    pub sizes : IsSmall t.interleaver scope
    pub low : frame_idx * t.interleaver.n_ports + scope.n_frames * t.interleaver.n_ports < horizon
    pub tuned : InTune t

  -- A receiver that a cycle finds in reach, on some stream.
  pub record RxReady (scope : ProcessScope A) (frame_idx : ℕ) (r : JackRx GenericCounter Rx)
      : Type ℓ where
    pub sizes : IsSmall r.interleaver scope
    pub elements : ℕ → A
    pub len : ℕ
    pub carries : in_ring.readable r.rx.rx ≡ window elements r.rx.counter.value len
    pub reach : InReach (frame_idx * r.interleaver.n_ports) r.rx.counter.value
    pub low : frame_idx * r.interleaver.n_ports < u64_mod
    pub fits : r.rx.counter.value + len < u64_mod

  process_txs-InTune :
      (scope : ProcessScope A) (frame_idx : ℕ) (ts : List (JackTx GenericCounter Tx))
      → Captures out_ring silence audio scope frame_idx
      → Each (TxReady scope frame_idx) ts
      → (ts' : List (JackTx GenericCounter Tx)) × (process_txs out_ring silence scope frame_idx ts
          ≡ done ts')
        × Each InTune ts'
  unfolding process_txs
  process_txs-InTune scope frame_idx [] captures all = ([], refl, tt)
  process_txs-InTune scope frame_idx (t ∷ ts) captures (ready, all) =
      let (t', first, same, s) =
        process_tx-IsSynced out_ring silence audio scope frame_idx t ready.sizes captures ready.low
          ready.tuned in
      let (ts', rest, ss) = process_txs-InTune scope frame_idx ts captures all in
      (t' ∷ ts', rw (first, rest), (rw same s, ss))

  process_rx_total :
      (scope : ProcessScope A) (frame_idx : ℕ) (r : JackRx GenericCounter Rx)
      → RxReady scope frame_idx r
      → (out : List (Write A)) × (r' : JackRx GenericCounter Rx) × (process_rx in_ring silence scope
            frame_idx r
          ≡ done (out, r'))
  process_rx_total scope frame_idx r ready =
      let (r', run, _, _) =
        process_rx_lem in_ring silence scope frame_idx r ready.elements ready.len ready.sizes
          ready.carries ready.reach ready.low ready.fits in
      (_, r', run)

  process_rxs_total :
      (scope : ProcessScope A) (frame_idx : ℕ) (rs : List (JackRx GenericCounter Rx))
      → Each (RxReady scope frame_idx) rs
      → (out : List (Write A)) × (rs' : List (JackRx GenericCounter Rx)) × (process_rxs in_ring
            silence scope frame_idx rs
          ≡ done (out, rs'))
  unfolding process_rxs
  process_rxs_total scope frame_idx [] all = ([], [], refl)
  process_rxs_total scope frame_idx (r ∷ rs) (ready, all) =
      let (out, r', first) = process_rx_total scope frame_idx r ready in
      let (outs, rs', rest) = process_rxs_total scope frame_idx rs all in
      (out ++ outs, r' ∷ rs', rw (first, rest))

  -- A cycle of the callback, not before the first one, whose input buffers hold the audio from its
  -- frame on, counted from the first cycle, with senders in tune and receivers in reach, on
  -- counters and indices that are far from their ends: it does not panic, all senders stay in tune,
  -- and the frame of the first cycle is kept, or set if this is the first one.
  pub process-InTune :
      (scope : ProcessScope A) (h : DuplexProcessHandler GenericCounter GenericCounter Tx Rx)
      → let first = get_or_init h.start_frame_idx scope.last_frame_time in
        let frame_idx = scope.last_frame_time - first in
        first ≤ scope.last_frame_time
        → Captures out_ring silence audio scope frame_idx
        → Each (TxReady scope frame_idx) h.txs
        → Each (RxReady scope frame_idx) h.rxs
        → (out : List (Write A)) × (h' : DuplexProcessHandler GenericCounter GenericCounter Tx Rx)
          × (process out_ring in_ring silence scope h ≡ done (out, h'))
          × Each InTune h'.txs
          × (h'.start_frame_idx ≡ some first)
  unfolding process
  process-InTune scope h later captures txs rxs =
      let first = get_or_init h.start_frame_idx scope.last_frame_time in
      let frame_idx = scope.last_frame_time - first in
      let (ts', sent, tuned) = process_txs-InTune scope frame_idx h.txs captures txs in
      let (out, rs', received) = process_rxs_total scope frame_idx h.rxs rxs in
      (
        out,
        record { txs = ts'; rxs = rs'; start_frame_idx = some first },
        rw (le→ltb_false scope.last_frame_time first later, sent, received),
        tuned,
        refl,
      )
