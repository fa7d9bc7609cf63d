-- ===== src/Coreaudio/Properties/Device.antt =====
-- The properties of the device, `find_device_property_data` of `syfala_coreaudio/src/lib.rs`.
use Prim.Native.String.{String}
use syfala_test.Common.{
  ℕ, zero, suc, ◌*◌, Bool, ◌||◌, ◌&&◌, ◌==◌, leb, if◌then◌else◌, Option, none, some, List, [], ◌∷◌,
  ◌++◌, done, pos,
}
use syfala_test.Coreaudio.Objects.{
  n_channels, n_controls, n_device_owned_objs, plugin_id, device_id, stream_id, first_ctrl_id,
}
use syfala_test.Coreaudio.Io.{frames_per_timestamp}
use syfala_test.Coreaudio.Sys.{Sys}
use syfala_test.Coreaudio.State.{Address}
use syfala_test.Coreaudio.Properties.{
  PropertyData, Value, u32, f64, cf_string, value_range, channel_layout, unneeded, s, layout_size,
  class_id_size, object_id_size, u32_size, fixed, computed, listing, lookup,
}

-- The ids from one on.
abbrev pub ids_from {ℓ} : {F : Type ℓ} → ℕ → ℕ → List (Value F)
ids_from first zero = []
ids_from first (suc n) = u32 first ∷ ids_from (suc first) n

-- The number in `Option<NonZeroU32>`: 0 stands for `None`.
abbrev pub non_zero_u32 : Option ℕ → ℕ
non_zero_u32 none = 0
non_zero_u32 (some n) = n

abbrev pub or_else {ℓ} : {A : Type ℓ} → Option A → Option A → Option A
or_else none p = p
or_else (some p) _ = some p

module _ (c : Sys) where
  abbrev pub global_or_output : Address → Bool
  global_or_output address = (address.scope == c.scope_output) || (address.scope == c.scope_global)

  abbrev pub element_text : ℕ → String
  element_text element =
      if element == c.element_main
      then "Master"
      else (if leb 1 element && leb element n_channels then c.to_string element else "<Unknown>")

module _ {ℓ} {F : Type ℓ} (c : Sys) where
  unfoldable pub element_name_data : PropertyData F
  element_name_data =
      computed c c.cf_string_size λ _ _ addr _. done (cf_string (element_text c addr.element))

  -- The layout is filled in where it stands, and its size returned.
  unfoldable pub preferred_layout : PropertyData F
  preferred_layout = record {
    get_data_size = λ _ _. s (layout_size c);
    write_data = unneeded λ _ _ _ _ _. done (record {
      size = layout_size c;
      items = channel_layout c.use_channel_descriptions 0 1 ∷ [];
    });
    read_data = none;
  }

  -- The `match` for the global scope and the output's.
  unfoldable pub scoped_arms : List (ℕ × PropertyData F)
  unfolding preferred_layout
  scoped_arms =
      (c.can_be_default_device, fixed c u32_size (u32 1))
      ∷ (c.can_be_default_system_device, fixed c u32_size (u32 1))
      ∷ (c.preferred_channel_layout, preferred_layout)
      ∷ []

  -- The `match` for all scopes: what the device is, and the objects that it has.
  unfoldable pub identity_arms : List (ℕ × PropertyData F)
  identity_arms =
      (c.base_class, fixed c class_id_size (u32 c.object_class))
      ∷ (c.safety_offset, fixed c u32_size (u32 0))
      ∷ (c.latency, fixed c u32_size (u32 0))
      ∷ (c.class, fixed c class_id_size (u32 c.device_class))
      ∷ (c.owner, fixed c object_id_size (u32 plugin_id))
      ∷ (c.name, fixed c c.cf_string_size (cf_string "YESSSS"))
      ∷ (c.manufacturer, fixed c c.cf_string_size (cf_string "GRAME"))
      ∷ (
        c.owned_objects,
        listing (n_device_owned_objs * object_id_size) object_id_size λ addr.
            if global_or_output c addr
            then u32 stream_id ∷ ids_from first_ctrl_id n_controls
            else [],
      )
      ∷ (
        c.control_list,
        listing (n_controls * object_id_size) object_id_size λ _. ids_from first_ctrl_id n_controls,
      )
      ∷ []

  -- The rest of it: how the device is found, and how it runs.
  unfoldable pub running_arms : List (ℕ × PropertyData F)
  running_arms =
      (c.device_uid, fixed c c.cf_string_size (cf_string "UID"))
      ∷ (c.model_uid, fixed c c.cf_string_size (cf_string "ModelUID"))
      ∷ (c.transport_type, fixed c u32_size (u32 c.transport_type_avb))
      ∷ (c.related_devices, listing object_id_size object_id_size λ _. u32 device_id ∷ [])
      ∷ (c.clock_domain, fixed c u32_size (u32 0))
      ∷ (c.device_is_alive, fixed c u32_size (u32 1))
      ∷ (
        c.device_is_running,
        computed c u32_size λ d _ _ _. done (u32 (non_zero_u32 d.device_io.n_active_clients)),
      )
      ∷ (c.nominal_sample_rate, fixed c 8 (f64 (pos 48000)))
      ∷ (
        c.available_nominal_sample_rates,
        listing (c.value_range_size * 1) c.value_range_size
            λ _. value_range (pos 48000) (pos 48000) ∷ [],
      )
      ∷ (c.is_hidden, fixed c u32_size (u32 0))
      ∷ (c.zero_time_stamp_period, fixed c u32_size (u32 frames_per_timestamp))
      ∷ (
        c.streams,
        listing (object_id_size * 1) object_id_size
            λ addr. if global_or_output c addr then u32 stream_id ∷ [] else [],
      )
      ∷ []

  unfoldable pub find_device_property_data : Address → Option (PropertyData F)
  unfolding element_name_data scoped_arms identity_arms running_arms
  find_device_property_data address =
      if (address.selector == c.element_name) && leb address.element n_channels
      then some element_name_data
      else or_else
          (if global_or_output c address then lookup address.selector scoped_arms else none)
          (lookup address.selector (identity_arms ++ running_arms))
