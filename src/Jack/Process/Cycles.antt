-- ===== src/Jack/Process/Cycles.antt =====
-- A JACK client that only sends, over any number of cycles of the process callback.
use syfala_test.Common.{
  ℕ, ◌+◌, ◌-◌, ◌*◌, ◌<◌, ◌≤◌, ◌≡◌, Outcome, done, ◌>>=◌, List, [], ◌∷◌, map, some, Each,
}
use syfala_test.Utils.Counter.{GenericCounter, generic_counter}
use syfala_test.Utils.Ring.{RingConsumer, RingProducer}
use syfala_test.Utils.Queue.History.{horizon}
use syfala_test.Jack.Process.{Interleaver, ProcessScope, JackTx, DuplexProcessHandler, process}
use syfala_test.Jack.Process.Transmit.{IsSmall, Captures}
use syfala_test.Jack.Process.Cycle.{InTune}

module _ {ℓ κ μ} {A : Type ℓ} {Tx : Type κ} {Rx : Type μ} (out_ring : RingProducer A Tx)
    (in_ring : RingConsumer A Rx) (silence : A) where
  abbrev pub Handler : Type (κ ⊔ μ)
  Handler = DuplexProcessHandler GenericCounter GenericCounter Tx Rx

  -- The callback for one cycle after the other.
  unfoldable pub cycles : List (ProcessScope A) → Handler → Outcome Handler
  cycles [] h = done h
  cycles (scope ∷ scopes) h = do
    (_, h') ← process out_ring in_ring silence scope h
    cycles scopes h'

  module _ (audio : ℕ → ℕ → A) where
    abbrev Tuned : JackTx GenericCounter Tx → Type ℓ
    Tuned t = InTune out_ring in_ring silence audio t

    -- The ports of a sender in a cycle: not too many, and at indices below the horizon.
    abbrev pub PortsFit : ProcessScope A → ℕ → Interleaver → Type 0
    PortsFit scope frame_idx i =
        IsSmall i scope × (frame_idx * i.n_ports + scope.n_frames * i.n_ports < horizon)

    abbrev pub ports : Handler → List Interleaver
    ports h = map (λ (t : JackTx GenericCounter Tx). t.interleaver) h.txs

    -- A cycle of a client whose first one was at the frame time `first`.
    pub record CycleFits (first : ℕ) (is : List Interleaver) (scope : ProcessScope A) : Type ℓ where
      pub later : first ≤ scope.last_frame_time
      pub captures : Captures out_ring silence audio scope (scope.last_frame_time - first)
      pub fit : Each (PortsFit scope (scope.last_frame_time - first)) is

    -- A client without receivers, with senders in tune, after its first cycle.
    pub record IsRecording (first : ℕ) (h : Handler) : Type (ℓ ⊔ κ ⊔ μ) where
      pub sends_only : h.rxs ≡ []
      pub started : h.start_frame_idx ≡ some first
      pub tuned : Each Tuned h.txs
