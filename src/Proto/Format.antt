-- ===== src/Proto/Format.antt =====
-- Stream formats: `syfala_proto/src/format.rs`. An `f64` is its 64-bit pattern; the tests of the
-- standard library on it are those of IEEE 754.
pub mod Sizes
use syfala_test.Common.{
  ℕ, ◌-◌, ◌*◌, ◌/◌, ◌%◌, ◌^◌, Outcome, done, panicked, ◌>>=◌, unwrap, u32_mod, ltb, if◌then◌else◌,
  ◌==◌, Bool, true, false, not, ◌&&◌, Option, none, some, List, [],
}

pub data SampleType : Type 0 where
  u8 u16 u24 u32 u64 i8 i16 i24 i32 i64 ieef32 ieef64 : SampleType

unfoldable pub is_signed : SampleType → Bool
is_signed i8 = true
is_signed i16 = true
is_signed i24 = true
is_signed i32 = true
is_signed ieef32 = true
is_signed ieef64 = true
is_signed _ = false

unfoldable pub is_float : SampleType → Bool
is_float ieef32 = true
is_float ieef64 = true
is_float _ = false

-- Bytes of a sample.
unfoldable pub sample_size : SampleType → ℕ
sample_size u8 = 1
sample_size i8 = 1
sample_size u16 = 2
sample_size i16 = 2
sample_size u24 = 3
sample_size i24 = 3
sample_size u32 = 4
sample_size i32 = 4
sample_size ieef32 = 4
sample_size u64 = 8
sample_size i64 = 8
sample_size ieef64 = 8

-- `f64::is_normal`: the exponent is neither all zeros nor all ones.
abbrev pub is_normal : ℕ → Bool
is_normal bits =
    let exponent = bits / 2 ^ 52 % 2 ^ 11 in not (exponent == 0) && not (exponent == 2 ^ 11 - 1)

-- `f64::is_sign_positive`
abbrev pub is_sign_positive : ℕ → Bool
is_sign_positive bits = bits / 2 ^ 63 % 2 == 0

pub record SampleRate : Type 0 where
  pub bits : ℕ

pub data SampleRateError : Type 0 where
  sample_rate_error : SampleRateError

-- `SampleRate::new`
unfoldable pub new : ℕ → Option SampleRate
new val = if is_normal val && is_sign_positive val then some (record { bits = val }) else none

pub data Parsed : Type 0 where
  ok : SampleRate → Parsed
  err : SampleRateError → Parsed

abbrev ok_or : Option SampleRate → Parsed
ok_or (some r) = ok r
ok_or none = err sample_rate_error

-- `TryFrom<f64> for SampleRate`
unfoldable pub try_from : ℕ → Parsed
unfolding new
try_from value = ok_or (new value)

pub record Format : Type 0 where
  pub sample_rate : SampleRate
  pub channel_count : ℕ
  pub buffer_size : ℕ
  pub sample_type : SampleType

-- The bit pattern of `48e3`.
abbrev rate_48k : ℕ
rate_48k = 0x40e7_7000_0000_0000

-- `Format::standard`, which is also the default.
unfoldable pub standard : Outcome Format
unfolding new
standard = do
  rate ← unwrap (new rate_48k)
  done (record { sample_rate = rate; channel_count = 2; buffer_size = 32; sample_type = ieef32 })

-- `checked_mul` of `u32`, with its `unwrap`.
abbrev mul_u32 : ℕ → ℕ → Outcome ℕ
mul_u32 a b = if ltb (a * b) u32_mod then done (a * b) else panicked

-- The product of a size, where there is one.
abbrev scaled : ℕ → Option ℕ → Outcome (Option ℕ)
scaled factor none = done none
scaled factor (some n) = mul_u32 n factor >>= λ m. done (some m)

unfoldable pub chunk_size_samples : Format → Outcome (Option ℕ)
chunk_size_samples f =
    scaled f.channel_count (if f.buffer_size == 0 then none else some f.buffer_size)

unfoldable pub chunk_size_bytes : Format → Outcome (Option ℕ)
unfolding chunk_size_samples
chunk_size_bytes f = do samples ← chunk_size_samples f; scaled (sample_size f.sample_type) samples

pub record StreamFormats : Type 0 where
  pub inputs : List Format
  pub outputs : List Format
