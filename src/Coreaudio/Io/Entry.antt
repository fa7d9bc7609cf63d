-- ===== src/Coreaudio/Io/Entry.antt =====
-- Requests for IO through the entry points, with the right pointer and device.
use syfala_test.Common.{ℕ, ◌≡◌, refl, Option, none, some, Outcome, done, panicked, ==_self, ◌>>=◌}
use syfala_test.Coreaudio.Objects.{device_id}
use syfala_test.Coreaudio.Status.{Status, no_error}
use syfala_test.Coreaudio.Lifecycle.{check_device}
use syfala_test.Coreaudio.Io.{
  IoInfo, Timestamp, start_io, stop_io, get_zero_timestamp, zero_timestamp, start_client,
  stop_client,
}
use syfala_test.Coreaudio.Io.Device.{
  Request, start, stop, read_clock, status, timestamp, Answer, serve,
}

module _ (raw_driver_ptr ticks : ℕ) where
  -- What `get_zero_timestamp` answers.
  abbrev reading : Status → Option Timestamp → Answer
  reading st none = status st
  reading st (some t) = timestamp t

  -- The entry points for a request, with the pointer to the driver and the id of the device.
  unfoldable pub enter : Request → IoInfo → Outcome (Answer × IoInfo)
  enter (start now) io =
      let (st, io') = start_io raw_driver_ptr raw_driver_ptr device_id now io in
      done (status st, io')
  enter (stop now) io = do
    (st, io') ← stop_io raw_driver_ptr raw_driver_ptr device_id io
    done (status st, io')
  enter (read_clock now) io = do
    (st, t, io') ← get_zero_timestamp raw_driver_ptr raw_driver_ptr device_id ticks now io
    done (reading st t, io')

  read_end :
      (o : Outcome (Timestamp × IoInfo))
      (f : Timestamp × IoInfo → Outcome (Status × Option Timestamp × IoInfo))
      (g : Status × Option Timestamp × IoInfo → Outcome (Answer × IoInfo))
      (h : Timestamp × IoInfo → Outcome (Answer × IoInfo))
      → ((r : Timestamp × IoInfo) → (f r >>= g) ≡ h r)
      → ((o >>= f) >>= g) ≡ (o >>= h)
  read_end (done r) f g h same = same r
  read_end panicked f g h same = refl

  start_io-eq :
      (now : ℕ) (io : IoInfo)
      → start_io raw_driver_ptr raw_driver_ptr device_id now io ≡ start_client now io
  unfolding start_io check_device
  start_io-eq now io = rw (start_io, ==_self raw_driver_ptr)

  stop_io-eq : (io : IoInfo) → stop_io raw_driver_ptr raw_driver_ptr device_id io ≡ stop_client io
  unfolding stop_io check_device
  stop_io-eq io = rw (stop_io, ==_self raw_driver_ptr)

  get_zero_timestamp-eq :
      (now : ℕ) (io : IoInfo)
      → get_zero_timestamp raw_driver_ptr raw_driver_ptr device_id ticks now io
        ≡ (zero_timestamp ticks now io >>= λ r. done (no_error, some r.0, r.1))
  unfolding get_zero_timestamp check_device
  get_zero_timestamp-eq now io = rw (get_zero_timestamp, ==_self raw_driver_ptr)

  pub enter-serve : (r : Request) (io : IoInfo) → enter r io ≡ serve ticks r io
  unfolding enter serve
  enter-serve (start now) io = rw (start_io-eq now io)
  enter-serve (stop now) io = rw (stop_io-eq io)
  enter-serve (read_clock now) io =
      rw (get_zero_timestamp-eq now io) (read_end (zero_timestamp ticks now io) _ _ _ λ r. refl)
