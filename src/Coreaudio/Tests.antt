-- ===== src/Coreaudio/Tests.antt =====
-- Concrete constants, floats and requests, and the theorems about the macOS driver at them.
mod Macos
use Prim.Native.Nat.{max, min}
use syfala_test.Common.{
  ◌<◌, ℕ, ◌+◌, ◌-◌, ◌*◌, ◌/◌, ◌≤◌, ◌≡◌, ◌↔◌, refl, true, false, ltb, ◌==◌, none, some, ◌⊎◌, List,
  [], ◌∷◌, ◌++◌, done, unwrap, map, set, arith,
}
use syfala_test.Coreaudio.Objects.{
  audio_object_is_control, control_is_volume, control_channel_index, control_id, control_ids,
  n_channels,
}
use syfala_test.Coreaudio.Status.{no_error}
use syfala_test.Coreaudio.Lifecycle.{i_unknown_uuid}
use syfala_test.Coreaudio.Lifecycle.References.{
  Call, query, add, drop, calls, effect, ledger, calls-ledger,
}
use syfala_test.Coreaudio.Io.{IoInfo, Timestamp, zero_timestamp, device_io, ticks_per_timestamp}
use syfala_test.Coreaudio.Io.Device.{Request, start, stop, read_clock, ideal_all, Device}
use syfala_test.Coreaudio.Io.Tracks.{Tracks}
use syfala_test.Coreaudio.Io.Progress.{clock_advances}
use syfala_test.Coreaudio.Volume.{
  Float32, IsIeee, sq, linear_remap, db_to_norm, volume_control_db_val, vol_min_db, vol_max_db,
  vol_db_range, gain_to_db,
}
use syfala_test.Coreaudio.Volume.Clamp.{db_to_norm_full, volume_control_db_val_lem}
use syfala_test.Coreaudio.Sys.{Sys, IsLaidOut}
use syfala_test.Coreaudio.State.{Address, Driver, IsValid, loaded}
use syfala_test.Coreaudio.Properties.{Memory, u32}
use syfala_test.Coreaudio.Properties.Access.{get_property_data, set_property_data, Got}
use syfala_test.Coreaudio.Properties.Reads.{Honest, get_property_data-Honest}
use syfala_test.Coreaudio.Properties.Writes.{Settled, set_property_data-Settled}
use syfala_test.Coreaudio.Properties.Agree.{Agreement, entry_points-Agree}
use syfala_test.Coreaudio.Properties.Mute.{IsDistinct, mute-RoundTrip}
use syfala_test.Coreaudio.Sessions.{HostCall, io, run, requests, run-ideal}
use syfala_test.Coreaudio.Tests.Macos.{
  raw, macos, macos-IsLaidOut, macos-IsDistinct, levels, Level, nan_levels, nan_levels-IsIeee,
}

control_ids_example : (audio_object_is_control 9 ≡ true) ↔ (
    (c : ℕ) × (c ≤ n_channels)
    × (control_channel_index 9 ≡ done c)
    × (9 ≡ control_id c (control_is_volume 9)))
control_ids_example = control_ids 9

-- One release too many.
abbrev unbalanced : List Call
unbalanced = query raw i_unknown_uuid 5 ∷ add raw ∷ drop raw ∷ drop raw ∷ drop raw ∷ []

calls-ledger_example : calls raw unbalanced 0 ≡ unwrap (ledger (map (effect raw) unbalanced) 0)
calls-ledger_example = calls-ledger raw unbalanced 0 (omega arith)

abbrev silent_device : Device
silent_device = record { clients = 0; started = 0 }

silent_device-Tracks : Tracks 50000 silent_device device_io 0
silent_device-Tracks = record {
  kept = refl;
  few = omega arith;
  periods = 0;
  frame = refl;
  host = refl;
  passed = omega arith;
}

clock_advances_example :
    (t : Timestamp) × (io' : IoInfo) × (t' : Timestamp) × (io'' : IoInfo) × (zero_timestamp 50000
        120000 device_io
      ≡ done (t, io'))
    × (zero_timestamp 50000 240000 io' ≡ done (t', io''))
    × (t.0 + 24000 ≤ t'.0)
    × (t.1 + 50000 ≤ t'.1)
    × (t'.1 ≤ 240000)
    × (240000 < t'.1 + 50000)
clock_advances_example =
    clock_advances 50000 silent_device device_io 0 120000 240000 (omega arith) (omega arith)
      (omega arith) (omega arith) silent_device-Tracks

db_to_norm_full_example :
    db_to_norm (some 30)
    ≡ sq (linear_remap vol_max_db vol_min_db vol_db_range nan_levels.nought nan_levels.one)
db_to_norm_full_example = db_to_norm_full nan_levels-IsIeee (some 30)

-- The second gain is a NaN, and so is its level.
volume_control_db_val_lem_example :
    let g : Level = gain_to_db none in
    (db : Level) × (volume_control_db_val (some 3 ∷ none ∷ []) 1 ≡ some db)
    × (((nan_levels.eq g g ≡ false) × (db ≡ vol_max_db))
        ⊎ ((nan_levels.lt g vol_min_db ≡ true) × (db ≡ vol_min_db))
        ⊎ ((nan_levels.lt vol_max_db g ≡ true) × (db ≡ vol_max_db))
        ⊎ ((nan_levels.eq g g ≡ true)
            × (nan_levels.lt g vol_min_db ≡ false)
            × (nan_levels.lt vol_max_db g ≡ false)
            × (nan_levels.eq db g ≡ true)))
volume_control_db_val_lem_example =
    volume_control_db_val_lem nan_levels-IsIeee (some 3 ∷ none ∷ []) 1 none refl

nan_reported : volume_control_db_val {F = Level} (some 3 ∷ none ∷ []) 1 ≡ some (some 80)
unfolding volume_control_db_val gain_to_db sq
nan_reported = refl

loaded-IsValid : IsValid (loaded {F = ℕ})
unfolding loaded
loaded-IsValid = record { volumes = refl; mutes = refl }

-- The list of the device's controls.
abbrev controls : Address
controls = record { selector = macos.control_list; scope = macos.scope_global; element = 0 }

abbrev nothing : Memory ℕ
nothing = record { as_u32 = 0; as_f32 = 0 }

get_property_data-Honest_example :
    (r : Got ℕ) × (get_property_data ℕ macos raw raw 2
        (some controls)
        0
        none
        200
        true
        (some nothing)
        loaded
      ≡ done r)
    × Honest macos raw raw 2 (some controls) 200 r
get_property_data-Honest_example =
    get_property_data-Honest macos raw raw 2 macos-IsLaidOut loaded (some controls) 0 none 200 true
      (some nothing) loaded-IsValid

-- The value of a mute control.
abbrev value : Address
value = record { selector = macos.boolean_value; scope = macos.scope_global; element = 0 }

abbrev on : Memory ℕ
on = record { as_u32 = 1; as_f32 = 0 }

set_property_data-Settled_example : Settled macos raw raw 6 loaded (some value) none 4 (some on)
set_property_data-Settled_example =
    set_property_data-Settled macos raw raw 6 loaded (some value) none 4 (some on) loaded-IsValid

entry_points-Agree_example : Agreement ℕ macos raw raw 3 value 0 none 4 nothing (some on) loaded
entry_points-Agree_example =
    entry_points-Agree ℕ macos raw raw 3 value 0 none 4 nothing (some on) loaded

-- The driver, once it has a host with a callback.
abbrev hosted : Driver ℕ
hosted = record (loaded) { host = some (record { has_properties_changed = true }) }

hosted-IsValid : IsValid hosted
unfolding loaded
hosted-IsValid = record { volumes = refl; mutes = refl }

mute-RoundTrip_example :
    (k : ℕ) × (d' : Driver ℕ) × (control_channel_index 6 ≡ done k)
    × (set_property_data ℕ macos raw raw 6 (some value) none 4 (some on) hosted
        ≡ done (no_error, d'))
    × (d'.output_mute ≡ set hosted.output_mute k true)
    × (d'.changes ≡ hosted.changes ++ record { object = 6; addresses = value ∷ [] } ∷ [])
    × (get_property_data ℕ macos raw raw 6 (some value) 0 none 4 true (some nothing) d'
        ≡ done (no_error, some (record { size = 4; items = u32 1 ∷ [] })))
unfolding audio_object_is_control control_is_volume
mute-RoundTrip_example =
    mute-RoundTrip macos raw 6 4 0 value on nothing hosted none macos-IsLaidOut macos-IsDistinct
      hosted-IsValid refl refl refl (omega arith) refl

-- A host that mutes the first channel between its requests for IO.
abbrev busy : List (HostCall ℕ)
busy =
    io (start 100)
    ∷ HostCall.set (record {
      driver = raw;
      object = 6;
      address = some value;
      qualifier = none;
      size = 4;
      input = some on;
    })
    ∷ io (read_clock 240000)
    ∷ []

run-ideal_example :
    run macos raw 50000 busy loaded ≡ done (ideal_all 50000 (requests busy) silent_device)
unfolding requests loaded
run-ideal_example =
    run-ideal macos raw 50000 busy loaded silent_device 0 300000 (omega arith) loaded-IsValid
      silent_device-Tracks (omega arith, (omega arith, omega arith)) (omega arith)

-- On a machine that counts 24 million ticks a second, half a second is 12 million ticks; the driver
-- takes it for more than 20 thousand million.
ticks_are_too_many : ticks_per_timestamp 125 3 ≡ done 20833333333
unfolding ticks_per_timestamp
ticks_are_too_many = refl
