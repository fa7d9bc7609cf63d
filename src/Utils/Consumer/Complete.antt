-- ===== src/Utils/Consumer/Complete.antt =====
-- The bytes of a packet, one after another: what happens at the end of a sample.
use native.Mathlib.Nat.{mod-lt}
use syfala_test.Common.{
  ℕ, ◌+◌, ◌%◌, ◌<◌, ◌≤◌, ◌≡◌, ◌≢◌, refl, ap, ◌∙◌, done, panicked, u64_mod, ◌==◌, List, [], ◌∷◌,
  length, length-set, set, none, arith, Bool-cases, inl, inr, ==→eq, ==_false→ne, lt→ltb, false,
}
use syfala_test.Utils.Trait.{Sample}
use syfala_test.Utils.Producer.Step.{suc-mod-cases}
use syfala_test.Utils.Consumer.{AudioPacketSamplePadder, complete, on_byte, next_sample}

module _ {ℓ} {T : Type ℓ} (s : Sample T) where
  open s use {bytes_per_sample}

  abbrev pub IsValid : AudioPacketSamplePadder → Type 0
  IsValid p = length p.current_sample_bytes ≡ bytes_per_sample

  -- The slice bounds underflow at every complete sample.
  complete_panics :
      (curr : ℕ) (p : AudioPacketSamplePadder)
      → curr < bytes_per_sample
      → complete s curr p ≡ panicked
  unfolding complete
  complete_panics curr p h = rw (lt→ltb curr bytes_per_sample h)

  -- A byte that does not end a sample is stored.
  record Stored (p p' : AudioPacketSamplePadder) : Type 0 where
    moved : p'.current_byte_idx ≡ p.current_byte_idx + 1
    valid : IsValid p'

  on_byte_last :
      (p : AudioPacketSamplePadder) (b : ℕ)
      → IsValid p
      → p.current_byte_idx + 1 < u64_mod
      → p.current_byte_idx % bytes_per_sample + 1 ≡ bytes_per_sample
      → on_byte s p b ≡ panicked
  unfolding on_byte
  on_byte_last p b v small last =
      let curr = p.current_byte_idx % bytes_per_sample in
      let in_range = mod-lt p.current_byte_idx s.positive in
      let at : (p.current_byte_idx + 1) % bytes_per_sample ≡ 0 =
        ground (arith, suc-mod-cases p.current_byte_idx bytes_per_sample s.positive) in
      rw (lt→ltb curr (length p.current_sample_bytes) (omega arith), lt→ltb _ _ small, at)
        (complete_panics curr _ in_range)

  on_byte_inside :
      (p : AudioPacketSamplePadder) (b : ℕ)
      → IsValid p
      → p.current_byte_idx + 1 < u64_mod
      → p.current_byte_idx % bytes_per_sample + 1 ≢ bytes_per_sample
      → (p' : AudioPacketSamplePadder) × (on_byte s p b ≡ done (none, p')) × Stored p p'
  unfolding on_byte
  on_byte_inside p b v small inside =
      let curr = p.current_byte_idx % bytes_per_sample in
      let in_range = mod-lt p.current_byte_idx s.positive in
      let ne : ((p.current_byte_idx + 1) % bytes_per_sample == 0) ≡ false =
        ground (arith, suc-mod-cases p.current_byte_idx bytes_per_sample s.positive) in
      (
        record {
          current_byte_idx = p.current_byte_idx + 1;
          current_sample_bytes = set p.current_sample_bytes curr b;
        },
        rw (lt→ltb curr (length p.current_sample_bytes) (omega arith), lt→ltb _ _ small, ne),
        record { moved = refl; valid = length-set p.current_sample_bytes curr b ∙ v },
      )

  -- Bytes that reach the end of a sample make the iterator panic.
  pub next_sample_panics :
      (p : AudioPacketSamplePadder) (bs : List ℕ)
      → IsValid p
      → p.current_byte_idx + length bs < u64_mod
      → bytes_per_sample ≤ p.current_byte_idx % bytes_per_sample + length bs
      → next_sample s p bs ≡ panicked
  unfolding next_sample
  next_sample_panics p [] v small reach =
      absurd (omega (arith, mod-lt p.current_byte_idx s.positive))
  next_sample_panics p (b ∷ bs) v small reach =
      elim (Bool-cases (p.current_byte_idx % bytes_per_sample + 1 == bytes_per_sample)) [
        | inl last ↦ rw (on_byte_last p b v (omega arith) (==→eq _ _ last))
        | inr inside ↦
            let ne = ==_false→ne _ _ inside in
            let (p', run, st) = on_byte_inside p b v (omega arith) ne in
            let at : p'.current_byte_idx % bytes_per_sample
                ≡ p.current_byte_idx % bytes_per_sample + 1 =
              ap (λ i. i % bytes_per_sample) st.moved
              ∙ suc-mod-cases p.current_byte_idx bytes_per_sample s.positive
              ∙ rw inside in
            rw run (next_sample_panics p' bs st.valid (omega (arith, st.moved)) (omega (arith, at)))
      ]

  -- Bytes that do not are all stored, and the iterator ends.
  pub next_sample_buffers :
      (p : AudioPacketSamplePadder) (bs : List ℕ)
      → IsValid p
      → p.current_byte_idx + length bs < u64_mod
      → p.current_byte_idx % bytes_per_sample + length bs < bytes_per_sample
      → (p' : AudioPacketSamplePadder) × (next_sample s p bs ≡ done (none, p', []))
        × (p'.current_byte_idx ≡ p.current_byte_idx + length bs)
        × IsValid p'
  unfolding next_sample
  next_sample_buffers p [] v small short = (p, refl, omega arith, v)
  next_sample_buffers p (b ∷ bs) v small short =
      let inside : (p.current_byte_idx % bytes_per_sample + 1 == bytes_per_sample) ≡ false =
        ground arith in
      let (p', run, st) = on_byte_inside p b v (omega arith) (==_false→ne _ _ inside) in
      let at : p'.current_byte_idx % bytes_per_sample ≡ p.current_byte_idx % bytes_per_sample + 1 =
        ap (λ i. i % bytes_per_sample) st.moved
        ∙ suc-mod-cases p.current_byte_idx bytes_per_sample s.positive
        ∙ rw inside in
      let (p'', rest, moved, valid) =
        next_sample_buffers p' bs st.valid (omega (arith, st.moved)) (omega (arith, at)) in
      (p'', rw run rest, omega (arith, st.moved, moved), valid)
