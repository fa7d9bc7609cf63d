-- ===== src/Coreaudio/Properties/Find.antt =====
-- `find_property_data` of `syfala_coreaudio/src/lib.rs`.
use syfala_test.Common.{
  ℕ, Bool, true, false, ◌==◌, if◌then◌else◌, Option, none, some, Outcome, done, ◌>>=◌,
}
use syfala_test.Coreaudio.Objects.{
  plugin_id, device_id, stream_id, audio_object_is_control, control_is_volume,
  control_channel_index,
}
use syfala_test.Coreaudio.Volume.{Float32}
use syfala_test.Coreaudio.Sys.{Sys}
use syfala_test.Coreaudio.State.{Address}
use syfala_test.Coreaudio.Properties.{PropertyData}
use syfala_test.Coreaudio.Properties.Plugin.{find_plugin_property_data}
use syfala_test.Coreaudio.Properties.Device.{find_device_property_data}
use syfala_test.Coreaudio.Properties.Stream.{find_stream_property_data}
use syfala_test.Coreaudio.Properties.Control.{find_control_property_data}

-- `Result<&PropertyData, bool>`: the error says whether there is an object of the id.
pub data Found {ℓ} (F : Type ℓ) : Type ℓ where
  found : PropertyData F → Found F
  missing : Bool → Found F

-- `ok_or(true)`
abbrev pub of_object {ℓ} : {F : Type ℓ} → Option (PropertyData F) → Found F
of_object none = missing true
of_object (some p) = found p

module _ {ℓ} {F : Type ℓ} ⦃f : Float32 F⦄ (c : Sys) where
  unfoldable pub find_property_data : ℕ → Address → Outcome (Found F)
  unfolding audio_object_is_control control_is_volume control_channel_index
      find_plugin_property_data find_device_property_data find_stream_property_data
      find_control_property_data
  find_property_data id address =
      if id == plugin_id
      then done (of_object (find_plugin_property_data c address))
      else (if id == device_id
          then done (of_object (find_device_property_data c address))
          else (if id == stream_id
              then done (of_object (find_stream_property_data c address))
              else (if audio_object_is_control id
                  then (do
                    ctrl_index ← control_channel_index id
                    done (
                        of_object
                          (find_control_property_data c (control_is_volume id) ctrl_index address)))
                  else done (missing false))))
