-- ===== src/Coreaudio/Io/Progress.antt =====
-- The driver's clock does not stand still.
use native.Mathlib.Nat.{le-div_iff_mul-le, div-mul-le_self, lt-div-mul-add, mul-le-mul_left}
use syfala_test.Common.{ℕ, ◌+◌, ◌-◌, ◌*◌, ◌/◌, ◌≤◌, ◌<◌, ◌≡◌, done, u64_mod, arith}
use syfala_test.Coreaudio.Io.{IoInfo, zero_timestamp, Timestamp, frames_per_timestamp}
use syfala_test.Coreaudio.Io.Device.{Device, ideal_timestamp}
use syfala_test.Coreaudio.Io.Tracks.{Tracks, zero_timestamp-Tracks}

module _ (ticks : ℕ) where
  more_periods :
      (started now later : ℕ)
      → 0 < ticks
      → started ≤ now
      → now + ticks ≤ later
      → (now - started) / ticks + 1 ≤ (later - started) / ticks
  more_periods started now later some_ticks begun gap =
      let p = (now - started) / ticks in
      let whole : p * ticks ≤ now - started = div-mul-le_self (now - started) ticks in
      let one_more : (p + 1) * ticks ≡ p * ticks + ticks = omega arith in
      (le-div_iff_mul-le some_ticks).1 (omega (arith, whole, one_more))

  -- On a device that is tracked, whose clock has at least as many ticks in a period as there are
  -- frames, two readings that lie a period or more apart both succeed, as long as the time fits in
  -- 64 bits: the second timestamp is further on by at least the frames and the ticks of a period,
  -- and its host time has been reached, less than a period ago.
  pub clock_advances :
      (d : Device) (io : IoInfo) (before now later : ℕ)
      → frames_per_timestamp ≤ ticks
      → before ≤ now
      → now + ticks ≤ later
      → later < u64_mod
      → Tracks ticks d io before
      → (t : Timestamp) × (io' : IoInfo) × (t' : Timestamp) × (io'' : IoInfo) × (zero_timestamp
            ticks now io
          ≡ done (t, io'))
        × (zero_timestamp ticks later io' ≡ done (t', io''))
        × (t.0 + frames_per_timestamp ≤ t'.0)
        × (t.1 + ticks ≤ t'.1)
        × (t'.1 ≤ later)
        × (later < t'.1 + ticks)
  unfolding ideal_timestamp
  clock_advances d io before now later slow order gap fits tr =
      let (io', run, tr') =
        zero_timestamp-Tracks ticks d io before now slow order (omega (arith, fits, gap)) tr in
      let (io'', run', tr'') =
        zero_timestamp-Tracks ticks d io' now later slow (omega (arith, gap)) fits tr' in
      let some_ticks : 0 < ticks = omega (arith, slow) in
      let begun : d.started ≤ now = omega (arith, tr.passed, order) in
      let p = (now - d.started) / ticks in
      let p' = (later - d.started) / ticks in
      let more : p + 1 ≤ p' = more_periods d.started now later some_ticks begun gap in
      let far : ticks * (p + 1) ≤ ticks * p' = mul-le-mul_left ticks more in
      let step : ticks * (p + 1) ≡ ticks * p + ticks = omega arith in
      let whole : p' * ticks ≤ later - d.started = div-mul-le_self (later - d.started) ticks in
      let near : later - d.started < p' * ticks + ticks = lt-div-mul-add some_ticks in
      let swap : p' * ticks ≡ ticks * p' = omega arith in
      (
        _,
        io',
        _,
        io'',
        run,
        run',
        omega (arith, more),
        omega (arith, far, step),
        omega (arith, whole, swap, begun),
        omega (arith, near, swap, begun),
      )
