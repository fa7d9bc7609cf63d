-- ===== src/Coreaudio/Io/Device.antt =====
-- The requests of a host for the device's IO, one after the other, and an ideal device that keeps
-- no timestamps.
use syfala_test.Common.{
  ℕ, ◌+◌, ◌-◌, ◌*◌, ◌/◌, Outcome, done, ◌>>=◌, ltb, ◌==◌, if◌then◌else◌, u32_mod, List, [], ◌∷◌,
}
use syfala_test.Coreaudio.Status.{Status, no_error, illegal_operation}
use syfala_test.Coreaudio.Io.{
  IoInfo, start_client, stop_client, zero_timestamp, Timestamp, frames_per_timestamp,
}

-- What a host may ask of the device's IO, with the time at which the driver reads the clock.
pub data Request : Type 0 where
  start : ℕ → Request
  stop : ℕ → Request
  read_clock : ℕ → Request

abbrev pub time : Request → ℕ
time (start now) = now
time (stop now) = now
time (read_clock now) = now

pub data Answer : Type 0 where
  status : Status → Answer
  timestamp : Timestamp → Answer

-- The device that the driver stands for: a number of clients, and the time at which the first of
-- them started. Reading the clock changes nothing.
pub record Device : Type 0 where
  pub clients : ℕ
  pub started : ℕ

module _ (ticks : ℕ) where
  -- The driver.
  unfoldable pub serve : Request → IoInfo → Outcome (Answer × IoInfo)
  serve (start now) io = let (s, io') = start_client now io in done (status s, io')
  serve (stop now) io = do (s, io') ← stop_client io; done (status s, io')
  serve (read_clock now) io = do (t, io') ← zero_timestamp ticks now io; done (timestamp t, io')

  -- The whole periods since the start count, in frames and in ticks.
  unfoldable pub ideal_timestamp : ℕ → ℕ → Timestamp
  ideal_timestamp started now =
      let periods = (now - started) / ticks in
      (frames_per_timestamp * periods, started + ticks * periods)

  unfoldable pub ideal : Request → Device → Answer × Device
  ideal (start now) d =
      if d.clients == 0
      then (status no_error, record { clients = 1; started = now })
      else (if ltb (d.clients + 1) u32_mod
          then (status no_error, record { clients = d.clients + 1; started = d.started })
          else (status illegal_operation, d))
  ideal (stop now) d =
      if d.clients == 0
      then (status illegal_operation, d)
      else (status no_error, record { clients = d.clients - 1; started = d.started })
  ideal (read_clock now) d = (timestamp (ideal_timestamp d.started now), d)

  unfoldable pub ideal_all : List Request → Device → List Answer
  ideal_all [] d = []
  ideal_all (r ∷ rs) d = let (a, d') = ideal r d in a ∷ ideal_all rs d'
