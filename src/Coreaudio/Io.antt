-- ===== src/Coreaudio/Io.antt =====
-- Input and output of the driver, the last entry points of `syfala_coreaudio/src/lib.rs`: the
-- clients that do IO, the zero timestamps, and the IO operations. `mach_absolute_time` is the
-- argument `now`, and the ratio of `mach_timebase_info` an argument.
pub mod Device
pub mod Tracks
pub mod Clock
pub mod Progress
pub mod Entry
use syfala_test.Common.{
  ℕ, suc, ◌+◌, ◌-◌, ◌*◌, ◌/◌, Bool, true, false, not, Outcome, done, panicked, ◌>>=◌, ltb, ◌==◌,
  if◌then◌else◌, u32_mod, Option, none, some, strict_add, strict_sub, strict_mul,
}
use syfala_test.Coreaudio.Objects.{device_id, stream_id}
use syfala_test.Coreaudio.Status.{
  Status, no_error, bad_object, illegal_operation, unspecified, eq_driver_ptr,
}
use syfala_test.Coreaudio.Lifecycle.{check_device}

abbrev pub timestamp_period_nanosecs : ℕ
timestamp_period_nanosecs = 500000000

-- At 48000 frames a second; the source rounds a result that is whole.
abbrev pub frames_per_timestamp : ℕ
frames_per_timestamp = timestamp_period_nanosecs * 48000 / 1000000000

-- `TICKS_PER_TIMESTAMP`: the panic of a division by zero, and of `unwrap` at none.
unfoldable pub ticks_per_timestamp : ℕ → ℕ → Outcome ℕ
ticks_per_timestamp numer denom = do
  scaled ← strict_mul timestamp_period_nanosecs numer
  if denom == 0 then panicked else (if scaled / denom == 0 then panicked else done (scaled / denom))

-- `IOInfo`
pub record IoInfo : Type 0 where
  pub n_active_clients : Option ℕ
  pub current_frame_timestamp : ℕ
  pub current_host_timestamp : ℕ

-- `DEVICE_IO`, as it is initialized.
abbrev pub device_io : IoInfo
device_io = record {
  n_active_clients = none;
  current_frame_timestamp = 0;
  current_host_timestamp = 0;
}

-- `start_io`, once its arguments are checked.
unfoldable pub start_client : ℕ → IoInfo → Status × IoInfo
start_client now io = elim io.n_active_clients [
  | some n ↦
      if ltb (n + 1) u32_mod
      then (no_error, record (io) { n_active_clients = some (n + 1) })
      else (illegal_operation, io)
  | none ↦ (
    no_error,
    record { n_active_clients = some 1; current_frame_timestamp = 0; current_host_timestamp = now },
  )
]

-- `stop_io`, once its arguments are checked. The count of the clients is not zero.
unfoldable pub stop_client : IoInfo → Outcome (Status × IoInfo)
stop_client io = elim io.n_active_clients [
  | none ↦ done (illegal_operation, io)
  | some n ↦ (do
    new_n_clients ← strict_sub n 1
    if new_n_clients == 0
        then done (no_error, record (io) { n_active_clients = none })
        else done (no_error, record (io) { n_active_clients = some new_n_clients }))
]

-- The frame and the host time that `get_zero_timestamp` writes, beside the seed, which is 1. The frame
-- is written as the sample time, by a conversion to `f64` that stands outside the model: the first
-- number is the count that is converted. The conversion keeps counts up to 2^53 exactly.
abbrev pub Timestamp : Type 0
Timestamp = ℕ × ℕ

-- `get_zero_timestamp`, once its arguments are checked.
unfoldable pub zero_timestamp : ℕ → ℕ → IoInfo → Outcome (Timestamp × IoInfo)
zero_timestamp n_ticks_per_timestamp now io = do
  elapsed_time_ticks ← strict_sub now io.current_host_timestamp
  let n_timestamps_advanced = elapsed_time_ticks / n_ticks_per_timestamp
  ticks ← strict_mul n_ticks_per_timestamp n_timestamps_advanced
  host ← strict_add io.current_host_timestamp ticks
  frames ← strict_mul frames_per_timestamp n_timestamps_advanced
  frame ← strict_add io.current_frame_timestamp frames
  done (
    (frame, host),
    record (io) { current_frame_timestamp = frame; current_host_timestamp = host },
  )

module _ (raw_driver_ptr : ℕ) where
  unfoldable pub start_io : ℕ → ℕ → ℕ → IoInfo → Status × IoInfo
  unfolding check_device start_client
  start_io driver device now io = elim (check_device raw_driver_ptr driver device) [
    | no_error ↦ start_client now io
    | e ↦ (e, io)
  ]

  unfoldable pub stop_io : ℕ → ℕ → IoInfo → Outcome (Status × IoInfo)
  unfolding check_device stop_client
  stop_io driver device io = elim (check_device raw_driver_ptr driver device) [
    | no_error ↦ stop_client io
    | e ↦ done (e, io)
  ]

  unfoldable pub get_zero_timestamp :
      ℕ → ℕ → ℕ → ℕ → IoInfo → Outcome (Status × Option Timestamp × IoInfo)
  unfolding check_device zero_timestamp
  get_zero_timestamp driver device ticks now io = elim (check_device raw_driver_ptr driver device) [
    | no_error ↦ (do (t, io') ← zero_timestamp ticks now io; done (no_error, some t, io'))
    | e ↦ done (e, none, io)
  ]

  -- `will_do_io_operation`, and what it writes to the two places, where they are not null.
  unfoldable pub will_do_io_operation : ℕ → ℕ → ℕ → ℕ → ℕ → ℕ → Status × Option Bool × Option Bool
  unfolding check_device
  will_do_io_operation write_mix driver device operation will_do will_do_in_place =
      elim (check_device raw_driver_ptr driver device) [
        | no_error ↦
            let will = operation == write_mix in
            (
              no_error,
              (if will_do == 0 then none else some will),
              if will_do_in_place == 0 then none else some will,
            )
        | e ↦ (e, none, none)
      ]

  unfoldable pub begin_io_operation : ℕ → ℕ → Status
  unfolding check_device
  begin_io_operation driver device = check_device raw_driver_ptr driver device

  unfoldable pub do_io_operation : ℕ → ℕ → ℕ → Status
  unfolding check_device
  do_io_operation driver device stream = elim (check_device raw_driver_ptr driver device) [
    | no_error ↦ if not (stream == stream_id) then bad_object else no_error
    | e ↦ e
  ]

  unfoldable pub end_io_operation : ℕ → ℕ → Status
  unfolding check_device
  end_io_operation driver device = check_device raw_driver_ptr driver device
