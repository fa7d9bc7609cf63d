-- ===== src/Utils/Consumer/Packets.antt =====
-- Whole packets: one before the expected index, one at it, and one past it.
use syfala_test.Common.{
  ℕ, zero, suc, ◌+◌, ◌-◌, ◌%◌, ◌<◌, ◌≤◌, ◌≡◌, refl, ap, done, panicked, ◌>>=◌, u64_mod, leb, List,
  [], length, drop, drop_all, window, min, arith, Bool-cases, inl, inr, ◌⊎◌, ==_self, leb→le,
}
use syfala_test.Utils.Trait.{Sample}
use syfala_test.Utils.Consumer.{
  AudioPacketSamplePadder, Plan, PadderIter, plan, next_sample, feed_bytes, next, pull,
}
use syfala_test.Utils.Consumer.Complete.{IsValid, next_sample_panics, next_sample_buffers}

module _ {ℓ} {T : Type ℓ} (s : Sample T) where
  open s use {bytes_per_sample}

  plan_early :
      (current byte_idx : ℕ)
      → byte_idx < current
      → plan s current byte_idx
        ≡ done
            (record { n_padding_spls = 0; n_skipped_bytes = u64_mod - 1; next_byte_idx = current })
  unfolding plan
  plan_early current byte_idx h = ground arith

  plan_expected :
      (current : ℕ)
      → plan s current current
        ≡ done (record { n_padding_spls = 0; n_skipped_bytes = 0; next_byte_idx = current })
  unfolding plan
  plan_expected current = ground arith

  -- Without bytes and without padding the iterator is at its end.
  pull_none :
      (pad : ℕ → T) (calls made : ℕ) (p : AudioPacketSamplePadder)
      → pull s pad calls (record { padding = 0; made = made; padder = p; bytes = [] })
        ≡ done ([], record { padding = 0; made = made; padder = p; bytes = [] })
  unfolding pull next next_sample
  pull_none pad zero made p = refl
  pull_none pad (suc calls) made p = refl

  feed_bytes-eq :
      (p : AudioPacketSamplePadder) (byte_idx : ℕ) (bytes : List ℕ) (todo : Plan)
      → IsValid s p
      → plan s p.current_byte_idx byte_idx ≡ done todo
      → feed_bytes s p byte_idx bytes
        ≡ done (record {
          padding = todo.n_padding_spls;
          made = 0;
          padder = record p { current_byte_idx = todo.next_byte_idx };
          bytes = drop todo.n_skipped_bytes bytes;
        })
  unfolding feed_bytes
  feed_bytes-eq p byte_idx bytes todo v e = rw (v, ==_self, e)

  -- On a padder whose buffer has the sample's size, a packet of less than 2^64 bytes that begins
  -- before the expected index is discarded whole: nothing comes out of it, and the padder stays as
  -- it is.
  pub reordered_packet :
      (p : AudioPacketSamplePadder) (byte_idx : ℕ) (bytes : List ℕ) (pad : ℕ → T) (calls : ℕ)
      → IsValid s p
      → byte_idx < p.current_byte_idx
      → length bytes < u64_mod
      → (feed_bytes s p byte_idx bytes >>= pull s pad calls)
        ≡ done ([], record { padding = 0; made = 0; padder = p; bytes = [] })
  reordered_packet p byte_idx bytes pad calls v early fits =
      rw (feed_bytes-eq p byte_idx bytes _ v (plan_early p.current_byte_idx byte_idx early))
        (rw (drop_all (u64_mod - 1) bytes (omega arith)) (pull_none pad calls 0 p))

  -- On a padder whose buffer has the sample's size, a packet at the expected index that ends below
  -- 2^64, and a sink that asks for at least one sample: if the bytes reach the end of a sample, the
  -- program panics. If they do not, no sample comes out, and the index moves by the bytes.
  pub packet_in_order :
      (p : AudioPacketSamplePadder) (bytes : List ℕ) (pad : ℕ → T) (calls : ℕ)
      → IsValid s p
      → p.current_byte_idx + length bytes < u64_mod
      → let run = feed_bytes s p p.current_byte_idx bytes >>= pull s pad (suc calls) in
        let reach = p.current_byte_idx % bytes_per_sample + length bytes in
        ((bytes_per_sample ≤ reach) × (run ≡ panicked))
        ⊎ ((reach < bytes_per_sample)
            × ((p' : AudioPacketSamplePadder) × (run
                  ≡ done ([], record { padding = 0; made = 0; padder = p'; bytes = [] }))
                × (p'.current_byte_idx ≡ p.current_byte_idx + length bytes)))
  unfolding pull next
  packet_in_order p bytes pad calls v small =
      let fed = feed_bytes-eq p p.current_byte_idx bytes _ v (plan_expected p.current_byte_idx) in
      elim (Bool-cases
        (leb bytes_per_sample (p.current_byte_idx % bytes_per_sample + length bytes))) [
          | inl reaches ↦
              let le = leb→le _ _ reaches in
              inl (le, rw fed (rw (next_sample_panics s p bytes v small le)))
          | inr short ↦
              let lt : p.current_byte_idx % bytes_per_sample + length bytes < bytes_per_sample =
                ground arith in
              let (p', run, moved, valid) = next_sample_buffers s p bytes v small lt in
              inr (lt, (p', rw fed (rw run), moved))
        ]

  pull_padding :
      (pad : ℕ → T) (calls padding made : ℕ) (p : AudioPacketSamplePadder) (bytes : List ℕ)
      → IsValid s p
      → p.current_byte_idx + length bytes < u64_mod
      → let run =
          pull s pad calls (record { padding = padding; made = made; padder = p; bytes = bytes }) in
        (run ≡ panicked)
        ⊎ ((it' : PadderIter) × (run ≡ done (window pad made (min calls padding), it')))
  unfolding pull next
  pull_padding pad zero padding made p bytes v small =
      let e : 0 ≡ min 0 padding = omega arith in
      let it : PadderIter = record { padding = padding; made = made; padder = p; bytes = bytes } in
      inr (it, ap (λ n. done (window pad made n, it)) e)
  pull_padding pad (suc calls) (suc padding) made p bytes v small =
      let e : suc (min calls padding) ≡ min (suc calls) (suc padding) = omega arith in
      elim (pull_padding pad calls padding (suc made) p bytes v small) [
        | inl panic ↦ inl (rw panic)
        | inr (it', run) ↦ inr (it', rw run (ap (λ n. done (window pad made n, it')) e))
      ]
  pull_padding pad (suc calls) zero made p bytes v small =
      let e : 0 ≡ min (suc calls) 0 = omega arith in
      elim (Bool-cases
        (leb bytes_per_sample (p.current_byte_idx % bytes_per_sample + length bytes))) [
          | inl reaches ↦ inl (rw (next_sample_panics s p bytes v small (leb→le _ _ reaches)))
          | inr short ↦
              let (p', run, _, _) = next_sample_buffers s p bytes v small (ground arith) in
              let it' : PadderIter = record { padding = 0; made = made; padder = p'; bytes = [] } in
              inr (it', rw run (ap (λ n. done (window pad made n, it')) e))
        ]

  -- From an iterator whose padder has a buffer of the sample's size and whose bytes end below 2^64,
  -- the sink gets padding only, whatever it pulls: no sample that was sent is ever handed on. Either
  -- the program panics, or the samples are the next ones of `pad`, as many as asked for and planned.
  pub pull_only_padding :
      (pad : ℕ → T) (calls : ℕ) (it : PadderIter)
      → IsValid s it.padder
      → it.padder.current_byte_idx + length it.bytes < u64_mod
      → (pull s pad calls it ≡ panicked)
        ⊎ ((it' : PadderIter) × (pull s pad calls it
              ≡ done (window pad it.made (min calls it.padding), it')))
  pull_only_padding pad calls it v small =
      pull_padding pad calls it.padding it.made it.padder it.bytes v small
