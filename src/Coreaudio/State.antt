-- ===== src/Coreaudio/State.antt =====
-- The state of the driver, the statics of `syfala_coreaudio/src/lib.rs`, and what the host sees of
-- it: the callback `PropertiesChanged`, whose calls are kept as a log.
use syfala_test.Common.{
  ℕ, ◌+◌, ◌≡◌, Bool, false, Option, none, some, List, [], ◌∷◌, ◌++◌, replicate, length, Outcome,
  done, ◌>>=◌, unwrap, get_elem?, set, if◌then◌else◌,
}
use syfala_test.Coreaudio.Objects.{n_channels}
use syfala_test.Coreaudio.Lifecycle.{Host}
use syfala_test.Coreaudio.Io.{IoInfo, device_io}
use syfala_test.Coreaudio.Volume.{Float32}

-- `AudioObjectPropertyAddress`
pub record Address : Type 0 where
  pub selector : ℕ
  pub scope : ℕ
  pub element : ℕ

-- A call of `PropertiesChanged`.
pub record Changed : Type 0 where
  pub object : ℕ
  pub addresses : List Address

-- `HOST`, `PLUGIN_REF_COUNT`, `IS_OUTPUT_STREAM_ACTIVE`, `DEVICE_IO`, `OUTPUT_VOLUME` and
-- `OUTPUT_MUTE`, with the calls of the host so far.
pub record Driver {ℓ} (F : Type ℓ) : Type ℓ where
  pub host : Option Host
  pub plugin_ref_count : ℕ
  pub is_output_stream_active : Bool
  pub device_io : IoInfo
  pub output_volume : List F
  pub output_mute : List Bool
  pub changes : List Changed

-- The statics as they are initialized: the master's gain is 0.
unfoldable pub loaded {ℓ} : {F : Type ℓ} → ⦃f : Float32 F⦄ → Driver F
loaded ⦃f⦄ = record {
  host = none;
  plugin_ref_count = 0;
  is_output_stream_active = false;
  device_io = device_io;
  output_volume = f.nought ∷ replicate n_channels f.one;
  output_mute = replicate (n_channels + 1) false;
  changes = [];
}

-- A cell for the master and one for each channel.
pub record IsValid {ℓ} {F : Type ℓ} (d : Driver F) : Type 0 where
  pub volumes : length d.output_volume ≡ n_channels + 1
  pub mutes : length d.output_mute ≡ n_channels + 1

-- The call of the host's `PropertiesChanged`, if there is a host and it has one.
abbrev pub calls_host : Option Host → Bool
calls_host none = false
calls_host (some host) = host.has_properties_changed

unfoldable pub notify {ℓ} : {F : Type ℓ} → ℕ → List Address → Driver F → Driver F
notify id addresses d =
    if calls_host d.host
    then record (d) { changes = d.changes ++ record { object = id; addresses = addresses } ∷ [] }
    else d

-- `get(index).unwrap().store(value)`
unfoldable pub store {ℓ} : {A : Type ℓ} → List A → ℕ → A → Outcome (List A)
store cells index value = do _ ← unwrap (get_elem? cells index); done (set cells index value)
