-- ===== src/Utils/Producer/Packets.antt =====
-- Pulling bytes from the stream, and the packets that `produce_packet` makes of them.
use syfala_test.Common.{
  ℕ, zero, suc, ◌+◌, ◌-◌, ◌<◌, ◌≡◌, refl, ap, ◌∙◌, sym, done, List, [], ◌∷◌, ◌++◌, length, take,
  drop, arith, inl, inr, u64_mod, Suffix, Suffix-refl, Suffix-trans, le→ltb_false,
}
use syfala_test.Utils.Trait.{Sample}
use syfala_test.Utils.Ring.{RingConsumer}
use syfala_test.Utils.Producer.{
  SampleByteStream, SampleByteStreamIter, next, pull, feed_samples, produce_packet,
}
use syfala_test.Utils.Producer.Step.{flat, pending, to_come, IsValid, Nexts, next-Nexts}

module _ {ℓ} {T : Type ℓ} (s : Sample T) where
  -- What `n` calls of `next` do.
  pub record Pulled (n : ℕ) (it : SampleByteStreamIter T) (out : List ℕ)
      (it' : SampleByteStreamIter T) : Type ℓ where
    pub bytes : out ≡ take n (to_come s it)
    pub coming : to_come s it' ≡ drop n (to_come s it)
    pub moved : it'.stream.current_byte_idx ≡ it.stream.current_byte_idx + length out
    pub valid : IsValid s it'.stream
    pub left : Suffix it'.iter it.iter

  abbrev Pulls : ℕ → SampleByteStreamIter T → Type ℓ
  Pulls n it =
      (out : List ℕ) × (it' : SampleByteStreamIter T) × (pull s n it ≡ done (out, it'))
      × Pulled n it out it'

  pull_step :
      (n : ℕ) (it : SampleByteStreamIter T)
      → IsValid s it.stream
      → it.stream.current_byte_idx + suc n < u64_mod
      → ((it₁ : SampleByteStreamIter T)
          → IsValid s it₁.stream
          → it₁.stream.current_byte_idx + n < u64_mod
          → Pulls n it₁)
      → Nexts s it (next s it)
      → Pulls (suc n) it
  unfolding pull
  pull_step n it v small ih (inl (ends, none_left)) = (
    [],
    it,
    rw (ends, pull),
    record {
      bytes = rw none_left;
      coming = rw none_left;
      moved = omega arith;
      valid = v;
      left = Suffix-refl it.iter;
    },
  )
  pull_step n it v small ih (inr (b, it₁, runs, y)) =
      let (out, it₂, run, p) = ih it₁ y.valid (omega (arith, y.moved)) in
      (
        b ∷ out,
        it₂,
        rw (runs, pull) (rw run),
        record {
          bytes = rw y.coming (ap (λ r. b ∷ r) p.bytes);
          coming = rw y.coming p.coming;
          moved = omega (arith, y.moved, p.moved);
          valid = p.valid;
          left = Suffix-trans p.left y.left;
        },
      )

  -- Pulling `n` bytes from a valid stream far from the end of its index does not panic: they are the
  -- first `n` of the bytes to come, and the others stay to come.
  pub pull-Pulled :
      (n : ℕ) (it : SampleByteStreamIter T)
      → IsValid s it.stream
      → it.stream.current_byte_idx + n < u64_mod
      → Pulls n it
  unfolding pull
  pull-Pulled zero it v small = (
    [],
    it,
    refl,
    record {
      bytes = refl;
      coming = refl;
      moved = omega arith;
      valid = v;
      left = Suffix-refl it.iter;
    },
  )
  pull-Pulled (suc n) it v small =
      pull_step n it v small (pull-Pulled n) (next-Nexts s it v (omega arith))

module _ {ℓ κ} {T : Type ℓ} {Rx : Type κ} (s : Sample T) (ring : RingConsumer T Rx) where
  -- The bytes that a framer and the ring buffer of its source have to send.
  abbrev pub unsent : Rx → SampleByteStream → List ℕ
  unsent source framer = pending s framer ++ flat s (ring.readable source)

  -- From a framer whose buffer has the sample's size, with an index that stays below 2^64 over `n`
  -- bytes: producing a packet and pulling `n` bytes does not panic. The packet starts at the framer's index, and holds
  -- the first `n` bytes not yet sent. The bytes left over, also those of a sample that was cut, are
  -- the first to be sent next, the index moves by the bytes of the packet, and the framer's buffer
  -- keeps its size.
  pub produce_packet_lem :
      (source : Rx) (framer : SampleByteStream) (n : ℕ)
      → IsValid s framer
      → framer.current_byte_idx + n < u64_mod
      → (source' : Rx) × (framer' : SampleByteStream) × (produce_packet s ring source framer n
          ≡ done (framer.current_byte_idx, take n (unsent source framer), source', framer'))
        × (unsent source' framer' ≡ drop n (unsent source framer))
        × (framer'.current_byte_idx
            ≡ framer.current_byte_idx + length (take n (unsent source framer)))
        × IsValid s framer'
  unfolding produce_packet feed_samples
  produce_packet_lem source framer n v small =
      let samples = ring.readable source in
      let (out, it, run, p) = pull-Pulled s n (feed_samples s framer samples) v small in
      let (k, rest, count) = p.left in
      let used : length samples - length it.iter ≡ k = omega arith in
      let ok = le→ltb_false (length samples) (length it.iter) (omega arith) in
      (
        ring.commit source k,
        it.stream,
        rw (run, ok, used, p.bytes),
        ap (λ xs. pending s it.stream ++ flat s xs) (ring.readable-commit source k ∙ sym rest)
            ∙ p.coming,
        rw (← p.bytes) p.moved,
        p.valid,
      )
