-- ===== src/Coreaudio/Sessions.antt =====
-- The driver as a whole: a host that sets properties and does IO, in any order.
use Prim.Native.String.{String}
use syfala_test.Common.{
  ℕ, ◌≤◌, ◌<◌, ◌≡◌, refl, sym, ◌∙◌, subst, Option, List, [], ◌∷◌, Outcome, done, ◌>>=◌, u64_mod,
  arith,
}
use syfala_test.Coreaudio.Io.Entry.{enter, enter-serve}
use syfala_test.Coreaudio.Io.{IoInfo, frames_per_timestamp}
use syfala_test.Coreaudio.Io.Device.{Request, time, Answer, Device, ideal_all}
use syfala_test.Coreaudio.Io.Tracks.{Tracks}
use syfala_test.Coreaudio.Io.Clock.{InOrder, InOrder-le, serve-Answers}
use syfala_test.Coreaudio.Volume.{Float32}
use syfala_test.Coreaudio.Sys.{Sys}
use syfala_test.Coreaudio.State.{Address, Driver, IsValid}
use syfala_test.Coreaudio.Properties.{Memory}
use syfala_test.Coreaudio.Properties.Access.{set_property_data}
use syfala_test.Coreaudio.Properties.Keeps.{Keeps}
use syfala_test.Coreaudio.Properties.Writes.{set_property_data-Settled}

-- The arguments of `set_property_data`.
pub record Setting {ℓ} (F : Type ℓ) : Type ℓ where
  pub driver : ℕ
  pub object : ℕ
  pub address : Option Address
  pub qualifier : Option String
  pub size : ℕ
  pub input : Option (Memory F)

pub data HostCall {ℓ} (F : Type ℓ) : Type ℓ where
  io : Request → HostCall F
  set : Setting F → HostCall F

-- The requests for IO among the calls.
unfoldable pub requests {ℓ} : {F : Type ℓ} → List (HostCall F) → List Request
requests [] = []
requests (io r ∷ cs) = r ∷ requests cs
requests (set s ∷ cs) = requests cs

-- The number of cells is all that a valid driver is about.
pub kept-IsValid {ℓ} : {F : Type ℓ} (d d' : Driver F) → Keeps d d' → IsValid d → IsValid d'
kept-IsValid d d' k v = record { volumes = k.volumes ∙ v.volumes; mutes = k.mutes ∙ v.mutes }

module _ {ℓ} {F : Type ℓ} ⦃f : Float32 F⦄ (c : Sys) (raw_driver_ptr ticks : ℕ) where
  -- The calls one after the other, and the answers to the requests for IO.
  unfoldable pub run : List (HostCall F) → Driver F → Outcome (List Answer)
  run [] d = done []
  run (io r ∷ cs) d = do
    (a, io') ← enter raw_driver_ptr ticks r d.device_io
    answers ← run cs (record (d) { device_io = io' })
    done (a ∷ answers)
  run (set s ∷ cs) d = do
    (_, d') ←
        set_property_data F c raw_driver_ptr s.driver s.object s.address s.qualifier s.size s.input
          d
    run cs d'

  -- From a driver with a cell for each control whose device is tracked, any calls of a host run
  -- without panic, with any arguments of `set_property_data`, and with the pointer to the driver and
  -- the id of the device for `start_io`, `stop_io` and `get_zero_timestamp`, as long as the times of
  -- these do not go back and fit in 64 bits, and the clock has at least as many ticks in a period as
  -- there are frames. The answers to the requests for IO are those of the ideal device, as if no
  -- property had been set.
  pub run-ideal :
      (cs : List (HostCall F)) (d : Driver F) (device : Device) (now last : ℕ)
      → frames_per_timestamp ≤ ticks
      → IsValid d
      → Tracks ticks device d.device_io now
      → InOrder ticks now last (requests cs)
      → last < u64_mod
      → run cs d ≡ done (ideal_all ticks (requests cs) device)
  unfolding run requests ideal_all
  run-ideal [] d device now last slow valid t order fits = refl
  run-ideal (io r ∷ cs) d device now last slow valid t order fits =
      let bound : time r ≤ last = InOrder-le ticks (time r) last (requests cs) order.1 in
      let (a, device', io', served, same, t') =
        serve-Answers ticks r device d.device_io now slow order.0 (omega arith) t in
      let valid' : IsValid (record (d) { device_io = io' }) = record {
        volumes = valid.volumes;
        mutes = valid.mutes;
      } in
      rw (
        enter-serve raw_driver_ptr ticks r d.device_io,
        served,
        same,
        run-ideal cs (record (d) { device_io = io' }) device' (time r) last slow valid' t' order.1
            fits,
      )
  run-ideal (set s ∷ cs) d device now last slow valid t order fits =
      let (st, d', done_it, kept, _) =
        set_property_data-Settled c raw_driver_ptr s.driver s.object d s.address s.qualifier s.size
          s.input valid in
      let t' : Tracks ticks device d'.device_io now =
        subst (λ (x : IoInfo). Tracks ticks device x now) (sym kept.io) t in
      rw
        (done_it, run-ideal cs d' device now last slow (kept-IsValid d d' kept valid) t' order fits)
