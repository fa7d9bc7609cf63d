-- ===== src/Utils/Producer.antt =====
-- Samples to an indexed stream of bytes: `syfala_utils/src/byte_producer.rs`. What a caller pulls
-- from the byte iterator is a number of calls of `next`; the state holds the samples that the
-- iterator has not asked for.
pub mod Step
pub mod Packets
use syfala_test.Common.{
  ℕ, zero, suc, ◌+◌, ◌-◌, ◌%◌, Outcome, done, ◌>>=◌, unwrap, strict_add, strict_sub, if◌then◌else◌,
  ◌==◌, List, [], ◌∷◌, length, get_elem?, replicate, Option, none, some,
}
use syfala_test.Utils.Trait.{Sample}
use syfala_test.Utils.Ring.{RingConsumer}

-- `SampleByteStream`; the scratch buffer is the last sample asked for.
pub record SampleByteStream : Type 0 where
  pub current_sample_bytes : List ℕ
  pub current_byte_idx : ℕ

-- `SampleByteStreamIter`
pub record SampleByteStreamIter {ℓ} (T : Type ℓ) : Type ℓ where
  pub iter : List T
  pub stream : SampleByteStream

module _ {ℓ} {T : Type ℓ} (s : Sample T) where
  open s use {bytes_per_sample, to_slice}

  unfoldable pub new : SampleByteStream
  new = record { current_sample_bytes = replicate bytes_per_sample 0; current_byte_idx = 0 }

  -- The byte at the index, with the sample's bytes in place.
  unfoldable pub emit : List T → List ℕ → ℕ → Outcome (Option ℕ × SampleByteStreamIter T)
  emit iter scratch idx = do
    idx' ← strict_add idx 1
    byte ← unwrap (get_elem? scratch (idx % bytes_per_sample))
    let stream : SampleByteStream = record {
      current_sample_bytes = scratch;
      current_byte_idx = idx';
    }
    done (some byte, record { iter = iter; stream = stream })

  -- At a sample's first byte the next sample is fetched and written over the scratch buffer.
  unfoldable pub fetch : List T → List ℕ → ℕ → Outcome (Option ℕ × SampleByteStreamIter T)
  fetch [] scratch idx =
      let stream : SampleByteStream = record {
        current_sample_bytes = scratch;
        current_byte_idx = idx;
      } in
      done (none, record { iter = []; stream = stream })
  fetch (x ∷ xs) scratch idx = do scratch' ← to_slice x scratch; emit xs scratch' idx

  unfoldable pub next : SampleByteStreamIter T → Outcome (Option ℕ × SampleByteStreamIter T)
  next it =
      let idx = it.stream.current_byte_idx in
      let scratch = it.stream.current_sample_bytes in
      if idx % bytes_per_sample == 0 then fetch it.iter scratch idx else emit it.iter scratch idx

  abbrev continue_with :
      (SampleByteStreamIter T → Outcome (List ℕ × SampleByteStreamIter T))
      → Option ℕ × SampleByteStreamIter T
      → Outcome (List ℕ × SampleByteStreamIter T)
  continue_with rest (none, it) = done ([], it)
  continue_with rest (some b, it) = do (bs, it') ← rest it; done (b ∷ bs, it')

  -- At most `calls` calls of `next`, up to the first `None`.
  unfoldable pub pull : ℕ → SampleByteStreamIter T → Outcome (List ℕ × SampleByteStreamIter T)
  pull zero it = done ([], it)
  pull (suc calls) it = next it >>= continue_with (pull calls)

  -- `feed_samples`
  unfoldable pub feed_samples : SampleByteStream → List T → SampleByteStreamIter T
  feed_samples stream samples = record { iter = samples; stream = stream }

  module _ {κ} {Rx : Type κ} (ring : RingConsumer T Rx) where
    -- `produce_packet` of an `IndexedAudioSampleStreamReceiver` over a ring buffer, and a caller
    -- that pulls `calls` bytes: the packet's index and bytes, the source and the framer. The
    -- samples that were not asked for stay in the ring buffer.
    unfoldable pub produce_packet :
        Rx → SampleByteStream → ℕ → Outcome (ℕ × List ℕ × Rx × SampleByteStream)
    unfolding feed_samples
    produce_packet source framer calls = do
      let samples = ring.readable source
      (bytes, it) ← pull calls (feed_samples framer samples)
      used ← strict_sub (length samples) (length it.iter)
      done (framer.current_byte_idx, bytes, ring.commit source used, it.stream)
