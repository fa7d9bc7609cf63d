-- ===== src/Coreaudio/Properties/Control.antt =====
-- The properties of the controls, `find_control_property_data` of `syfala_coreaudio/src/lib.rs`.
use syfala_test.Common.{
  ℕ, ◌*◌, Bool, not, ◌==◌, if◌then◌else◌, Option, List, [], ◌∷◌, ◌++◌, Outcome, done, ◌>>=◌, unwrap,
  get_elem?, pos, negsuc,
}
use syfala_test.Coreaudio.Objects.{device_id, control_channel_index}
use syfala_test.Coreaudio.Volume.{
  Float32, volume_control_db_val, volume_control_norm_val, norm_to_gain, db_to_gain, norm_to_db,
  db_to_norm,
}
use syfala_test.Coreaudio.Sys.{Sys}
use syfala_test.Coreaudio.State.{Address, Driver, notify, store}
use syfala_test.Coreaudio.Properties.{
  PropertyData, Value, Reader, u32, f32, value_range, class_id_size, object_id_size, u32_size,
  fixed, computed, listing, settable, lookup,
}

module _ {ℓ} {F : Type ℓ} (c : Sys) where
  -- The first `match`, for both kinds.
  unfoldable pub common_arms : List (ℕ × PropertyData F)
  common_arms =
      (c.owner, fixed c object_id_size (u32 device_id))
      ∷ (c.owned_objects, listing (object_id_size * 0) object_id_size λ _. [])
      ∷ (c.control_scope, fixed c u32_size (u32 c.scope_output))
      ∷ (
        c.control_element,
        computed c u32_size λ _ id _ _. do ctrl_idx ← control_channel_index id; done (u32 ctrl_idx),
      )
      ∷ []

  unfoldable pub get_mute : Driver F → ℕ → Outcome (Value F)
  get_mute d id = do
    ctrl_index ← control_channel_index id
    mute ← unwrap (get_elem? d.output_mute ctrl_index)
    done (u32 (if mute then 1 else 0))

  unfoldable pub set_mute : Reader F
  set_mute d id addr input = do
    ctrl_idx ← control_channel_index id
    output_mute ← store d.output_mute ctrl_idx (not (input.as_u32 == 0))
    done (notify id (addr ∷ []) (record (d) { output_mute = output_mute }))

  unfoldable pub mute_arms : List (ℕ × PropertyData F)
  unfolding get_mute set_mute
  mute_arms =
      (c.base_class, fixed c class_id_size (u32 c.boolean_control_class))
      ∷ (c.class, fixed c class_id_size (u32 c.mute_control_class))
      ∷ (c.boolean_value, settable set_mute (computed c u32_size λ d id _ _. get_mute d id))
      ∷ []

module _ {ℓ} {F : Type ℓ} ⦃f : Float32 F⦄ (c : Sys) where
  -- A gain is stored, and the host is told that the address and the one with the other selector for
  -- the volume have changed.
  unfoldable pub set_gain : (F → F) → ℕ → Reader F
  set_gain to_gain other d id addr input = do
    ctrl_idx ← control_channel_index id
    output_volume ← store d.output_volume ctrl_idx (to_gain input.as_f32)
    done (
        notify id (addr ∷ record (addr) { selector = other } ∷ [])
          (record (d) { output_volume = output_volume }))

  unfoldable pub get_volume : (List F → ℕ → Option F) → Driver F → ℕ → Outcome (Value F)
  get_volume reading d id = do
    ctrl_idx ← control_channel_index id
    value ← unwrap (reading d.output_volume ctrl_idx)
    done (f32 value)

  unfoldable pub volume_arms : List (ℕ × PropertyData F)
  unfolding get_volume set_gain
  volume_arms =
      (c.base_class, fixed c class_id_size (u32 c.level_control_class))
      ∷ (c.class, fixed c class_id_size (u32 c.volume_control_class))
      ∷ (
        c.scalar_value,
        settable (set_gain norm_to_gain c.decibel_value)
            (computed c 4 λ d id _ _. get_volume volume_control_norm_val d id),
      )
      ∷ (
        c.decibel_value,
        settable (set_gain db_to_gain c.scalar_value)
            (computed c 4 λ d id _ _. get_volume volume_control_db_val d id),
      )
      ∷ (c.decibel_range, fixed c c.value_range_size (value_range (negsuc 79) (pos 0)))
      ∷ (
        c.convert_scalar_to_decibels,
        computed c 4 λ _ _ _ before. done (f32 (norm_to_db before.as_f32)),
      )
      ∷ (
        c.convert_decibels_to_scalar,
        computed c 4 λ _ _ _ before. done (f32 (db_to_norm before.as_f32)),
      )
      ∷ []

  unfoldable pub find_control_property_data : Bool → ℕ → Address → Option (PropertyData F)
  unfolding common_arms volume_arms mute_arms
  find_control_property_data is_volume ctrl_index address =
      lookup address.selector (common_arms c ++ (if is_volume then volume_arms else mute_arms c))
