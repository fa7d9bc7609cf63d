-- ===== src/Coreaudio/Io/Tracks.antt =====
-- The driver's clock against that of the ideal device, and what a reading of it does.
use syfala_test.Common.{
  ℕ, ◌+◌, ◌-◌, ◌*◌, ◌/◌, ◌≤◌, ◌<◌, ◌≡◌, refl, done, ◌==◌, if◌then◌else◌, u32_mod, u64_mod, Option,
  none, some, arith, ap, sym, ◌∙◌, lt→ltb, le→ltb_false,
}
use native.Mathlib.Nat.{mul-add-div, mul-div-le, mul-le-mul_right}
use syfala_test.Coreaudio.Io.Device.{Device, ideal_timestamp}
use syfala_test.Coreaudio.Io.{IoInfo, zero_timestamp, frames_per_timestamp}

-- The clients, as the driver keeps them.
abbrev pub clients_kept : ℕ → Option ℕ
clients_kept n = if n == 0 then none else some n

module _ (ticks : ℕ) where
  -- The driver's timestamps are those of a whole number of periods that have passed.
  pub record Tracks (d : Device) (io : IoInfo) (now : ℕ) : Type 0 where
    pub kept : io.n_active_clients ≡ clients_kept d.clients
    pub few : d.clients < u32_mod
    pub periods : ℕ
    pub frame : io.current_frame_timestamp ≡ frames_per_timestamp * periods
    pub host : io.current_host_timestamp ≡ d.started + ticks * periods
    pub passed : d.started + ticks * periods ≤ now

  -- The periods passed, all at once and since the last reading.
  periods_add :
      (started k now : ℕ)
      → 0 < ticks
      → started + ticks * k ≤ now
      → (now - started) / ticks ≡ k + (now - (started + ticks * k)) / ticks
  periods_add started k now pos h =
      let split : now - started ≡ ticks * k + (now - (started + ticks * k)) = omega arith in
      ap (λ m. m / ticks) split ∙ mul-add-div pos k (now - (started + ticks * k))

  pub zero_timestamp-Tracks :
      (d : Device) (io : IoInfo) (before now : ℕ)
      → frames_per_timestamp ≤ ticks
      → before ≤ now
      → now < u64_mod
      → Tracks d io before
      → (io' : IoInfo) × (zero_timestamp ticks now io
          ≡ done (ideal_timestamp ticks d.started now, io'))
        × Tracks d io' now
  unfolding zero_timestamp ideal_timestamp
  zero_timestamp-Tracks d io before now slow order fits t =
      let k = t.periods in
      let n = (now - (d.started + ticks * k)) / ticks in
      let total : (now - d.started) / ticks ≡ k + n =
        periods_add d.started k now (omega (arith, slow)) (omega (arith, t.passed)) in
      let room : ticks * n ≤ now - (d.started + ticks * k) =
        mul-div-le (now - (d.started + ticks * k)) ticks in
      let sum : ticks * (k + n) ≡ ticks * k + ticks * n = omega arith in
      let enough : frames_per_timestamp * (k + n) ≤ ticks * (k + n) =
        mul-le-mul_right (k + n) slow in
      let frames_sum : frames_per_timestamp * (k + n)
          ≡ frames_per_timestamp * k + frames_per_timestamp * n =
        omega arith in
      let host_sum : d.started + ticks * k + ticks * n ≡ d.started + ticks * (k + n) =
        omega arith in
      let frame_sum : frames_per_timestamp * k + frames_per_timestamp * n
          ≡ frames_per_timestamp * (k + n) =
        sym frames_sum in
      (
        _,
        rw (
          t.host,
          t.frame,
          le→ltb_false now (d.started + ticks * k) (omega arith),
          lt→ltb (ticks * n) u64_mod (omega arith),
          lt→ltb (d.started + ticks * k + ticks * n) u64_mod (omega arith),
          lt→ltb (frames_per_timestamp * n) u64_mod (omega arith),
          lt→ltb (frames_per_timestamp * k + frames_per_timestamp * n) u64_mod (omega arith),
          total,
          host_sum,
          frame_sum,
        ),
        record {
          kept = t.kept;
          few = t.few;
          periods = k + n;
          frame = refl;
          host = refl;
          passed = omega arith;
        },
      )
