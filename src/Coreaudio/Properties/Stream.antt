-- ===== src/Coreaudio/Properties/Stream.antt =====
-- The properties of the stream, `find_stream_property_data` of `syfala_coreaudio/src/lib.rs`.
use syfala_test.Common.{ℕ, ◌*◌, not, ◌==◌, if◌then◌else◌, Option, List, [], ◌∷◌, done, pos}
use syfala_test.Coreaudio.Objects.{n_channels, device_id}
use syfala_test.Coreaudio.Sys.{Sys}
use syfala_test.Coreaudio.State.{Address, notify}
use syfala_test.Coreaudio.Properties.{
  PropertyData, Reader, u32, cf_string, basic_description, ranged_description, BasicDescription,
  class_id_size, object_id_size, u32_size, fixed, computed, listing, settable, lookup,
}

module _ (c : Sys) where
  -- `FORMAT`, its part `mFormat`.
  unfoldable pub format : BasicDescription
  format = record {
    sample_rate = pos 48000;
    format_id = c.format_linear_pcm;
    format_flags = c.format_flags_native_float_packed;
    bytes_per_packet = n_channels * 4;
    frames_per_packet = 1;
    bytes_per_frame = n_channels * 4;
    channels_per_frame = n_channels;
    bits_per_channel = 8 * 4;
  }

module _ {ℓ} {F : Type ℓ} (c : Sys) where
  unfoldable pub set_is_active : Reader F
  set_is_active d obj_id addr input =
      done (
        notify obj_id (addr ∷ [])
          (record (d) { is_output_stream_active = not (input.as_u32 == 0) }))

  unfoldable pub stream_arms : List (ℕ × PropertyData F)
  unfolding format
  stream_arms =
      (c.base_class, fixed c class_id_size (u32 c.object_class))
      ∷ (c.class, fixed c class_id_size (u32 c.stream_class))
      ∷ (c.owner, fixed c object_id_size (u32 device_id))
      ∷ (c.owned_objects, listing (object_id_size * 0) object_id_size λ _. [])
      ∷ (c.name, fixed c c.cf_string_size (cf_string "Output Stream"))
      ∷ (c.direction, fixed c u32_size (u32 0))
      ∷ (c.terminal_type, fixed c u32_size (u32 c.stream_terminal_type_unknown))
      ∷ (c.starting_channel, fixed c u32_size (u32 1))
      ∷ (c.stream_latency, fixed c u32_size (u32 0))
      ∷ (
        c.available_virtual_formats,
        listing (c.ranged_description_size * 1) c.ranged_description_size
            λ _. ranged_description (format c) (pos 48000) (pos 48000) ∷ [],
      )
      ∷ (
        c.available_physical_formats,
        listing (c.ranged_description_size * 1) c.ranged_description_size
            λ _. ranged_description (format c) (pos 48000) (pos 48000) ∷ [],
      )
      ∷ (c.virtual_format, fixed c c.basic_description_size (basic_description (format c)))
      ∷ (c.physical_format, fixed c c.basic_description_size (basic_description (format c)))
      ∷ (
        c.is_active,
        settable set_is_active (
            computed c u32_size λ d _ _ _. done (u32 (if d.is_output_stream_active then 1 else 0))),
      )
      ∷ []

  unfoldable pub find_stream_property_data : Address → Option (PropertyData F)
  unfolding stream_arms
  find_stream_property_data address = lookup address.selector stream_arms
