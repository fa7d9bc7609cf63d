-- ===== src/Utils/Consumer/Gap.antt =====
-- A packet past the expected index: how much is padded, and how much is skipped.
use native.Mathlib.Nat.{mul-sub, div-add-mod', div-mul-le_self, lt-div-mul-add, mul-mod_left}
use syfala_test.Common.{
  ℕ, ◌+◌, ◌-◌, ◌*◌, ◌/◌, ◌%◌, ◌<◌, ◌≤◌, ◌≡◌, ◌∙◌, done, u64_mod, arith, lt→ltb, le→ltb_false,
}
use syfala_test.Utils.Counter.Boundaries.{div_mono}
use syfala_test.Utils.Trait.{Sample}
use syfala_test.Utils.Consumer.{Plan, plan_gap, plan}

module _ {ℓ} {T : Type ℓ} (s : Sample T) where
  open s use {bytes_per_sample}

  plan_late :
      (current byte_idx : ℕ)
      → current < byte_idx
      → plan s current byte_idx ≡ plan_gap s current byte_idx
  unfolding plan
  plan_late current byte_idx h = ground arith

  -- A packet that begins past the expected index, and a sample's size or more below 2^64, makes a
  -- plan without panic. The padder goes on from the first sample
  -- boundary that is not before the packet, and pads the samples from the one that was expected up
  -- to there. It skips the packet's bytes before that boundary, and as many more as were lost.
  pub plan_gap_lem :
      (current byte_idx : ℕ)
      → current < byte_idx
      → byte_idx + bytes_per_sample < u64_mod
      → (todo : Plan) × (plan s current byte_idx ≡ done todo)
        × (todo.next_byte_idx % bytes_per_sample ≡ 0)
        × (byte_idx ≤ todo.next_byte_idx)
        × (todo.next_byte_idx < byte_idx + bytes_per_sample)
        × (todo.n_padding_spls * bytes_per_sample + current
            ≡ todo.next_byte_idx + current % bytes_per_sample)
        × (todo.n_skipped_bytes ≡ (todo.next_byte_idx - byte_idx) + (byte_idx - current))
  unfolding plan_gap
  plan_gap_lem current byte_idx past small =
      let n = bytes_per_sample in
      let pos = s.positive in
      let next = (byte_idx + (n - 1)) / n in
      let low : next * n ≤ byte_idx + (n - 1) = div-mul-le_self (byte_idx + (n - 1)) n in
      let high = lt-div-mul-add {a = byte_idx + (n - 1)} pos in
      let mono = div_mono current (byte_idx + (n - 1)) n (omega arith) pos in
      let fits : byte_idx + (n - 1) < u64_mod = omega arith in
      let fits' : next * n < u64_mod = omega arith in
      let after : current ≤ next * n = omega arith in
      let parts = div-add-mod' current n in
      let pads : (next - current / n) * n ≡ next * n - current / n * n =
        omega (arith, mul-sub n next (current / n)) in
      (
        record {
          n_padding_spls = next - current / n;
          n_skipped_bytes = next * n - current;
          next_byte_idx = next * n;
        },
        plan_late current byte_idx past
            ∙ rw (lt→ltb _ _ fits, le→ltb_false _ _ mono, lt→ltb _ _ fits', le→ltb_false _ _ after),
        mul-mod_left next n,
        omega arith,
        omega arith,
        omega arith,
        omega arith,
      )
