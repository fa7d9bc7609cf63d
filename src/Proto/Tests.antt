-- ===== src/Proto/Tests.antt =====
-- Concrete formats, and the theorems about formats at them.
use syfala_test.Common.{◌*◌, ◌^◌, ◌<◌, ◌≤◌, ◌≡◌, ◌↔◌, refl, done, ◌>>=◌, some, arith}
use syfala_test.Proto.Format.{
  i24, SampleRate, new, try_from, ok, Format, chunk_size_bytes, sample_size, standard,
}
use syfala_test.Proto.Format.Sizes.{try_from_lem, chunk_size_bytes_lem}

-- 44.1 kHz
abbrev rate_44k : SampleRate
rate_44k = record { bits = 0x40e5_8880_0000_0000 }

abbrev surround : Format
surround = record {
  sample_rate = rate_44k;
  channel_count = 6;
  buffer_size = 128;
  sample_type = i24;
}

standard_bytes : (do f ← standard; chunk_size_bytes f) ≡ done (some 256)
unfolding standard new chunk_size_bytes sample_size
standard_bytes = refl

try_from_lem_example : (try_from 0x40e5_8880_0000_0000 ≡ ok rate_44k) ↔ (
    (rate_44k.bits ≡ 0x40e5_8880_0000_0000)
    × (2 ^ 52 ≤ 0x40e5_8880_0000_0000)
    × (0x40e5_8880_0000_0000 < 2047 * 2 ^ 52))
try_from_lem_example = try_from_lem 0x40e5_8880_0000_0000 rate_44k (omega arith)

chunk_size_bytes_lem_example : chunk_size_bytes surround ≡ done (some 2304)
unfolding sample_size
chunk_size_bytes_lem_example = chunk_size_bytes_lem surround (omega arith)
