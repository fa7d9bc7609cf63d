-- ===== src/Jack/Process.antt =====
-- The process callback of the JACK client, `syfala_jack/src/lib.rs`: `JackTx`, `JackRx` and
-- `DuplexProcessHandler`. A port is a number. What JACK gives to the callback, the `ProcessScope`,
-- is a parameter: the frame time, the number of frames, and the samples of the input ports. What is
-- written to the output ports is a list, in the order of writing.
pub mod Transmit
pub mod Receive
pub mod Cycle
pub mod Cycles
use syfala_test.Common.{
  ℕ, suc, ◌*◌, Outcome, done, ◌>>=◌, strict_mul, strict_sub, List, [], ◌∷◌, ◌++◌, map, length,
  Option, none, some,
}
use syfala_test.Utils.Counter.{Counter}
use syfala_test.Utils.Ring.{RingConsumer, RingProducer}
use syfala_test.Utils.Queue.{IndexedRx, IndexedTx, recv, send}
use syfala_test.Jack.Interleaver.{Reference, interleave, pull}

-- `Interleaver`: the ports in order.
pub record Interleaver : Type 0 where
  pub n_ports : ℕ
  pub port : ℕ → ℕ

-- `jack::ProcessScope`
pub record ProcessScope {ℓ} (A : Type ℓ) : Type ℓ where
  pub last_frame_time : ℕ
  pub n_frames : ℕ
  pub as_slice : ℕ → ℕ → A

pub record JackTx {ℓ κ} (C : Type ℓ) (Tx : Type κ) : Type (ℓ ⊔ κ) where
  pub interleaver : Interleaver
  pub tx : IndexedTx C Tx

pub record JackRx {ℓ κ} (C : Type ℓ) (Rx : Type κ) : Type (ℓ ⊔ κ) where
  pub rx : IndexedRx C Rx
  pub interleaver : Interleaver

-- All references that `interleave` yields in a cycle.
abbrev pub references : Interleaver → ℕ → Outcome (List Reference)
references i n_frames = do
  (refs, _) ← pull n_frames (n_frames * i.n_ports) (interleave i.n_ports n_frames)
  done refs

-- A sample for a frame of a port.
abbrev pub Write {ℓ} : Type ℓ → Type ℓ
Write A = (ℕ × ℕ) × A

-- `zip` of the destinations with the samples, and the assignments to them.
abbrev pub assign {ℓ} : {A : Type ℓ} → Interleaver → List Reference → List A → List (Write A)
assign i ((port, frame) ∷ dests) (x ∷ xs) = ((i.port port, frame), x) ∷ assign i dests xs
assign i _ _ = []

module _ {ℓ κ μ} {A : Type ℓ} {Tx : Type κ} {C : Type μ} ⦃k : Counter C⦄ (ring : RingProducer A Tx)
    (silence : A) where
  -- The loop over the senders of `process`: one of them.
  unfoldable pub process_tx : ProcessScope A → ℕ → JackTx C Tx → Outcome (JackTx C Tx)
  process_tx scope frame_idx t = do
    spl_idx ← strict_mul frame_idx t.interleaver.n_ports
    refs ← references t.interleaver scope.n_frames
    let samples = map (λ (r : Reference). scope.as_slice (t.interleaver.port r.0) r.1) refs
    tx ← send ring t.tx spl_idx samples (λ _. silence)
    done (record { interleaver = t.interleaver; tx = tx })

  unfoldable pub process_txs :
      ProcessScope A → ℕ → List (JackTx C Tx) → Outcome (List (JackTx C Tx))
  process_txs scope frame_idx [] = done []
  process_txs scope frame_idx (t ∷ ts) = do
    t' ← process_tx scope frame_idx t
    ts' ← process_txs scope frame_idx ts
    done (t' ∷ ts')

module _ {ℓ κ μ} {A : Type ℓ} {Rx : Type κ} {C : Type μ} ⦃k : Counter C⦄ (ring : RingConsumer A Rx)
    (silence : A) where
  -- The loop over the receivers: one of them. `zip` asks for a sample at every destination.
  unfoldable pub process_rx :
      ProcessScope A → ℕ → JackRx C Rx → Outcome (List (Write A) × JackRx C Rx)
  process_rx scope frame_idx r = do
    spl_idx ← strict_mul frame_idx r.interleaver.n_ports
    dests ← references r.interleaver scope.n_frames
    (samples, rx) ← recv ring r.rx spl_idx (λ _. silence) (length dests)
    done (assign r.interleaver dests samples, record { rx = rx; interleaver = r.interleaver })

  unfoldable pub process_rxs :
      ProcessScope A → ℕ → List (JackRx C Rx) → Outcome (List (Write A) × List (JackRx C Rx))
  process_rxs scope frame_idx [] = done ([], [])
  process_rxs scope frame_idx (r ∷ rs) = do
    (out, r') ← process_rx scope frame_idx r
    (outs, rs') ← process_rxs scope frame_idx rs
    done (out ++ outs, r' ∷ rs')

pub record DuplexProcessHandler {ℓ κ μ ν} (C : Type ℓ) (D : Type κ) (Tx : Type μ) (Rx : Type ν)
    : Type (ℓ ⊔ κ ⊔ μ ⊔ ν) where
  pub txs : List (JackTx C Tx)
  pub rxs : List (JackRx D Rx)
  pub start_frame_idx : Option ℕ

-- `get_or_init` of a `OnceCell`.
abbrev pub get_or_init : Option ℕ → ℕ → ℕ
get_or_init none value = value
get_or_init (some first) value = first

module _ {ℓ κ μ ν ρ} {A : Type ℓ} {C : Type κ} {D : Type μ} {Tx : Type ν} {Rx : Type ρ}
    ⦃k : Counter C⦄ ⦃l : Counter D⦄ (out_ring : RingProducer A Tx) (in_ring : RingConsumer A Rx)
    (silence : A) where
  -- `process`, with what it writes to the output ports.
  unfoldable pub process :
      ProcessScope A
      → DuplexProcessHandler C D Tx Rx
      → Outcome (List (Write A) × DuplexProcessHandler C D Tx Rx)
  process scope h = do
    let first = get_or_init h.start_frame_idx scope.last_frame_time
    frame_idx ← strict_sub scope.last_frame_time first
    txs ← process_txs out_ring silence scope frame_idx h.txs
    (out, rxs) ← process_rxs in_ring silence scope frame_idx h.rxs
    done (out, record { txs = txs; rxs = rxs; start_frame_idx = some first })
