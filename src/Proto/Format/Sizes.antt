-- ===== src/Proto/Format/Sizes.antt =====
-- Sample rates that are accepted, and the sizes of a buffer.
use native.Mathlib.Nat.{le_trans}
use syfala_test.Common.{
  ℕ, ◌*◌, ◌^◌, ◌<◌, ◌≤◌, ◌≡◌, ◌↔◌, inl, inr, done, panicked, u32_mod, ltb, if◌then◌else◌, ◌==◌,
  none, some, arith, Bool-cases, le→ltb_false, ltb_false→le,
}
use syfala_test.Proto.Format.{
  SampleType, u8, sample_size, SampleRate, try_from, ok, Format, chunk_size_bytes,
}

pub sample_size_bounds : (t : SampleType) → (1 ≤ sample_size t) × (sample_size t ≤ 8)
unfolding sample_size
sample_size_bounds u8 = omega arith
sample_size_bounds _ = omega arith

-- For a bit pattern of 64 bits, `try_from` accepts it as the rate `r` exactly when `r` has that bit
-- pattern, and it lies from the least normal positive number up to the greatest finite one.
pub try_from_lem :
    (val : ℕ) (r : SampleRate)
    → val < 2 ^ 64
    → (try_from val ≡ ok r) ↔ ((r.bits ≡ val) × (2 ^ 52 ≤ val) × (val < 2047 * 2 ^ 52))
unfolding try_from
try_from_lem val r h = (λ e. (ground arith, ground arith, ground arith), λ e. ground arith)

bytes-ge : (n : ℕ) (t : SampleType) → n ≤ n * sample_size t
bytes-ge n t = grind (arith, sample_size_bounds t)

-- For a format with at least one channel, the number of bytes of a buffer is the product of frames,
-- channels and bytes of a sample. There is none when the buffer size is 0, and `chunk_size_bytes`
-- panics when the product is not a `u32`.
pub chunk_size_bytes_lem :
    (f : Format)
    → 0 < f.channel_count
    → let bytes = f.buffer_size * f.channel_count * sample_size f.sample_type in
      chunk_size_bytes f ≡ (
        if f.buffer_size == 0
        then done none
        else (if ltb bytes u32_mod then done (some bytes) else panicked))
unfolding chunk_size_bytes
chunk_size_bytes_lem f pos = elim (Bool-cases (f.buffer_size == 0)) [
  | inl e ↦ rw e
  | inr e ↦ elim (Bool-cases (ltb (f.buffer_size * f.channel_count) u32_mod)) [
    | inl small ↦ rw (e, small) (ground arith)
    | inr large ↦
        let over = bytes-ge (f.buffer_size * f.channel_count) f.sample_type in
        rw (e, large, le→ltb_false _ u32_mod (le_trans (ltb_false→le _ _ large) over))
  ]
]
