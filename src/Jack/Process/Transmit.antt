-- ===== src/Jack/Process/Transmit.antt =====
-- What a sender puts into its queue over the cycles of JACK.
use native.Mathlib.Nat.{mul-add-mod_self_right, mul-add-div_right, div-lt_iff_lt-mul}
use syfala_test.Common.{
  ℕ, zero, suc, ◌+◌, ◌*◌, ◌/◌, ◌%◌, ◌<◌, ◌≡◌, refl, sym, ap, ap₂, ◌∙◌, min, done, u32_mod, u64_mod,
  ◌∷◌, map, window, window-ext, arith, lt→ltb,
}
use syfala_test.Utils.Counter.{GenericCounter, generic_counter}
use syfala_test.Utils.Ring.{RingProducer}
use syfala_test.Utils.Queue.History.{IsSynced, horizon, send-IsSynced}
use syfala_test.Jack.Interleaver.{Reference}
use syfala_test.Jack.Interleaver.Cells.{nth}
use syfala_test.Jack.Interleaver.Order.{interleave_lem}
use syfala_test.Jack.Process.{Interleaver, ProcessScope, JackTx, references, process_tx}

map-window {ℓ κ} :
    {A : Type ℓ} {B : Type κ} (f : A → B) (g : ℕ → A) (start n : ℕ)
    → map f (window g start n) ≡ window (λ k. f (g k)) start n
map-window f g start zero = refl
map-window f g start (suc n) = ap (λ xs. f (g start) ∷ xs) (map-window f g (suc start) n)

-- An interleaver that `new` makes, and a cycle that JACK can ask for.
pub record IsSmall {ℓ} {A : Type ℓ} (i : Interleaver) (scope : ProcessScope A) : Type 0 where
  pub positive : 0 < i.n_ports
  pub ports : i.n_ports < u32_mod
  pub frames : scope.n_frames < u32_mod

-- All references of a cycle, in order.
pub references-eq {ℓ} :
    {A : Type ℓ} (i : Interleaver) (scope : ProcessScope A)
    → IsSmall i scope
    → references i scope.n_frames ≡ done (window (nth i.n_ports) 0 (scope.n_frames * i.n_ports))
references-eq i scope b =
    let total = scope.n_frames * i.n_ports in
    let (it, run, _) = interleave_lem i.n_ports scope.n_frames total b.positive b.ports b.frames in
    let all : min total total ≡ total = omega arith in
    rw run (ap (λ n. done (window (nth i.n_ports) 0 n)) all)

-- The stream of the samples of all ports, frame by frame and port by port.
abbrev pub stream {ℓ} : {A : Type ℓ} → (ℕ → ℕ → A) → Interleaver → ℕ → A
stream audio i k = audio (i.port (k % i.n_ports)) (k / i.n_ports)

pub nth-shifted : (n frame k : ℕ) → 0 < n → nth n (frame * n + k) ≡ (k % n, frame + k / n)
nth-shifted n frame k pos =
    ap₂ (λ a b. (a, b)) (mul-add-mod_self_right frame n k) (mul-add-div_right pos frame k)

module _ {ℓ κ} {A : Type ℓ} {Tx : Type κ} (ring : RingProducer A Tx) (silence : A)
    (audio : ℕ → ℕ → A) where
  -- The buffers of a cycle hold the audio from the frame `frame_idx` on.
  abbrev pub Captures : ProcessScope A → ℕ → Type ℓ
  Captures scope frame_idx =
      (p f : ℕ) → f < scope.n_frames → scope.as_slice p f ≡ audio p (frame_idx + f)

  samples-eq :
      (i : Interleaver) (scope : ProcessScope A) (frame_idx : ℕ)
      → 0 < i.n_ports
      → Captures scope frame_idx
      → map
          (λ (r : Reference). scope.as_slice (i.port r.0) r.1)
          (window (nth i.n_ports) 0 (scope.n_frames * i.n_ports))
        ≡ window (stream audio i) (frame_idx * i.n_ports) (scope.n_frames * i.n_ports)
  samples-eq i scope frame_idx pos captures =
      map-window (λ (r : Reference). scope.as_slice (i.port r.0) r.1) (nth i.n_ports) 0
        (scope.n_frames * i.n_ports)
      ∙ window-ext _ (stream audio i) 0 (frame_idx * i.n_ports) (scope.n_frames * i.n_ports) λ k h.
        let start : 0 + k ≡ k = omega arith in
        ap (λ j. scope.as_slice (i.port (j % i.n_ports)) (j / i.n_ports)) start
        ∙ captures (i.port (k % i.n_ports)) (k / i.n_ports) ((div-lt_iff_lt-mul pos).1 h)
        ∙ sym
            (ap (λ (r : Reference). audio (i.port r.0) r.1) (nth-shifted i.n_ports frame_idx k pos))

  -- A cycle whose buffers hold the audio from the frame `frame_idx` on, on a sender of at least one
  -- port that is synced to the stream of its ports, where the indices stay below the horizon: the
  -- sender does not panic and stays synced. So each position of its queue holds the sample of the
  -- port and frame that the position stands for, or silence, whatever cycles were missed and
  -- whenever the queue was full.
  pub process_tx-IsSynced :
      (scope : ProcessScope A) (frame_idx : ℕ) (t : JackTx GenericCounter Tx)
      → IsSmall t.interleaver scope
      → Captures scope frame_idx
      → frame_idx * t.interleaver.n_ports + scope.n_frames * t.interleaver.n_ports < horizon
      → IsSynced ring (stream audio t.interleaver) silence t.tx
      → (t' : JackTx GenericCounter Tx) × (process_tx ring silence scope frame_idx t ≡ done t')
        × (t'.interleaver ≡ t.interleaver)
        × IsSynced ring (stream audio t.interleaver) silence t'.tx
  unfolding process_tx
  process_tx-IsSynced scope frame_idx t b captures low s =
      let i = t.interleaver in
      let (tx, run, s') =
        send-IsSynced ring (stream audio i) silence t.tx (frame_idx * i.n_ports)
          (scope.n_frames * i.n_ports) s low in
      (
        record { interleaver = i; tx = tx },
        rw (
          lt→ltb (frame_idx * i.n_ports) u64_mod (omega arith),
          references-eq i scope b,
          samples-eq i scope frame_idx b.positive captures,
          run,
        ),
        refl,
        s',
      )
