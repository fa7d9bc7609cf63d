-- ===== src/Utils/Consumer.antt =====
-- An indexed stream of bytes back to samples: `syfala_utils/src/byte_consumer.rs`. The bytes of a
-- packet are a list; what the sink pulls from the sample iterator is a number of calls of `next`.
-- `pad k` is the result of the call number `k` of `pad_fn`.

pub mod Complete
pub mod Packets
pub mod Gap
use Prim.Native.Nat.{compare, Ordering}
use syfala_test.Common.{
  ℕ, zero, suc, ◌+◌, ◌-◌, ◌/◌, ◌%◌, Outcome, done, panicked, ◌>>=◌, strict_add, strict_sub,
  strict_mul, u64_mod, ltb, if◌then◌else◌, ◌==◌, List, [], ◌∷◌, length, set, take, drop, replicate,
  Option, none, some,
}
use syfala_test.Utils.Trait.{Sample}
use syfala_test.Utils.Ring.{RingProducer}

-- `AudioPacketSamplePadder`
pub record AudioPacketSamplePadder : Type 0 where
  pub current_byte_idx : ℕ
  pub current_sample_bytes : List ℕ

-- What a packet's index asks for: samples of padding, bytes to skip, and the index to go on from.
pub record Plan : Type 0 where
  pub n_padding_spls : ℕ
  pub n_skipped_bytes : ℕ
  pub next_byte_idx : ℕ

-- The iterator that `feed_bytes` returns, with the padder that it borrows.
pub record PadderIter : Type 0 where
  pub padding : ℕ
  pub made : ℕ
  pub padder : AudioPacketSamplePadder
  pub bytes : List ℕ

-- `&slice[lo..hi]`
abbrev pub slice : List ℕ → ℕ → ℕ → Outcome (List ℕ)
slice xs lo hi =
    if ltb hi lo
    then panicked
    else (if ltb (length xs) hi then panicked else done (take (hi - lo) (drop lo xs)))

-- `xs[i] = v`
abbrev pub store : List ℕ → ℕ → ℕ → Outcome (List ℕ)
store xs i v = if ltb i (length xs) then done (set xs i v) else panicked

module _ {ℓ} {T : Type ℓ} (s : Sample T) where
  open s use {bytes_per_sample, of_slice}

  unfoldable pub new : AudioPacketSamplePadder
  new = record { current_byte_idx = 0; current_sample_bytes = replicate bytes_per_sample 0 }

  -- The packet begins past the expected index.
  unfoldable pub plan_gap : ℕ → ℕ → Outcome Plan
  plan_gap current byte_idx = do
    let prev_spl_idx = current / bytes_per_sample
    last_byte ← strict_add byte_idx (bytes_per_sample - 1)
    let next_spl_idx = last_byte / bytes_per_sample
    n_padding_samples ← strict_sub next_spl_idx prev_spl_idx
    next_spl_byte_idx ← strict_mul next_spl_idx bytes_per_sample
    n_skipped_bytes ← strict_sub next_spl_byte_idx current
    done (record {
      n_padding_spls = n_padding_samples;
      n_skipped_bytes = n_skipped_bytes;
      next_byte_idx = next_spl_byte_idx;
    })

  -- A packet before the expected index is skipped, by `usize::MAX` bytes.
  unfoldable pub plan : ℕ → ℕ → Outcome Plan
  plan current byte_idx = elim (compare byte_idx current) [
    | Ordering.lt ↦
        done (record { n_padding_spls = 0; n_skipped_bytes = u64_mod - 1; next_byte_idx = current })
    | Ordering.eq ↦
        done (record { n_padding_spls = 0; n_skipped_bytes = 0; next_byte_idx = current })
    | Ordering.gt ↦ plan_gap current byte_idx
  ]

  -- The end of the closure of `filter_map`, where the byte at `curr` was a sample's last one.
  unfoldable pub complete :
      ℕ → AudioPacketSamplePadder → Outcome (Option T × AudioPacketSamplePadder)
  complete curr p = do
    lo ← strict_sub curr bytes_per_sample
    this_sample_bytes ← slice p.current_sample_bytes lo curr
    sample ← of_slice this_sample_bytes
    done (some sample, p)

  -- The closure of `filter_map`.
  unfoldable pub on_byte :
      AudioPacketSamplePadder → ℕ → Outcome (Option T × AudioPacketSamplePadder)
  on_byte p byte = do
    let curr = p.current_byte_idx % bytes_per_sample
    scratch ← store p.current_sample_bytes curr byte
    idx ← strict_add p.current_byte_idx 1
    let p' : AudioPacketSamplePadder = record {
      current_byte_idx = idx;
      current_sample_bytes = scratch;
    }
    if idx % bytes_per_sample == 0 then complete curr p' else done (none, p')

  abbrev goes_on :
      (AudioPacketSamplePadder → Outcome (Option T × AudioPacketSamplePadder × List ℕ))
      → List ℕ
      → Option T × AudioPacketSamplePadder
      → Outcome (Option T × AudioPacketSamplePadder × List ℕ)
  goes_on rest bytes (none, p) = rest p
  goes_on rest bytes (some x, p) = done (some x, p, bytes)

  -- `next` of the filtered bytes.
  unfoldable pub next_sample :
      AudioPacketSamplePadder → List ℕ → Outcome (Option T × AudioPacketSamplePadder × List ℕ)
  next_sample p [] = done (none, p, [])
  next_sample p (b ∷ bs) = on_byte p b >>= goes_on (λ p'. next_sample p' bs) bs

  -- `feed_bytes`
  unfoldable pub feed_bytes : AudioPacketSamplePadder → ℕ → List ℕ → Outcome PadderIter
  feed_bytes p byte_idx bytes =
      if length p.current_sample_bytes == bytes_per_sample
      then (do
        todo ← plan p.current_byte_idx byte_idx
        done (record {
          padding = todo.n_padding_spls;
          made = 0;
          padder = record p { current_byte_idx = todo.next_byte_idx };
          bytes = drop todo.n_skipped_bytes bytes;
        }))
      else panicked

  -- `next` of the iterator: the padding first.
  abbrev next_by :
      (ℕ → T) → ℕ → ℕ → AudioPacketSamplePadder → List ℕ → Outcome (Option T × PadderIter)
  next_by pad zero made p bytes = do
    (x, p', bytes') ← next_sample p bytes
    done (x, record { padding = 0; made = made; padder = p'; bytes = bytes' })
  next_by pad (suc padding) made p bytes =
      done
        (some (pad made), record { padding = padding; made = suc made; padder = p; bytes = bytes })

  unfoldable pub next : (ℕ → T) → PadderIter → Outcome (Option T × PadderIter)
  next pad it = next_by pad it.padding it.made it.padder it.bytes

  abbrev continue_with :
      (PadderIter → Outcome (List T × PadderIter))
      → Option T × PadderIter
      → Outcome (List T × PadderIter)
  continue_with rest (none, it) = done ([], it)
  continue_with rest (some x, it) = do (xs, it') ← rest it; done (x ∷ xs, it')

  unfoldable pub pull : (ℕ → T) → ℕ → PadderIter → Outcome (List T × PadderIter)
  pull pad zero it = done ([], it)
  pull pad (suc calls) it = next pad it >>= continue_with (pull pad calls)

  module _ {κ} {Tx : Type κ} (ring : RingProducer T Tx) where
    -- `consume_packet` of an `IndexedAudioByteStreamSender` over a ring buffer: `fill_from_iter`
    -- pulls at most as many samples as there are free slots. `silence` is `T::SILENCE`.
    unfoldable pub consume_packet :
        T → Tx → AudioPacketSamplePadder → ℕ → List ℕ → Outcome (Tx × AudioPacketSamplePadder)
    consume_packet silence sink framer byte_idx bytes = do
      it ← feed_bytes framer byte_idx bytes
      (samples, it') ← pull (λ _. silence) (ring.slots sink) it
      done ((ring.fill sink samples).0, it'.padder)
