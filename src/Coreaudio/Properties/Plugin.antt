-- ===== src/Coreaudio/Properties/Plugin.antt =====
-- The properties of the plug-in, `find_plugin_property_data` of `syfala_coreaudio/src/lib.rs`.
use syfala_test.Common.{ℕ, ◌*◌, not, ◌||◌, ◌==◌, if◌then◌else◌, Option, none, List, [], ◌∷◌, done}
use syfala_test.Coreaudio.Objects.{device_id}
use syfala_test.Coreaudio.Sys.{Sys}
use syfala_test.Coreaudio.State.{Address}
use syfala_test.Coreaudio.Properties.{
  PropertyData, u32, cf_string, needed, class_id_size, object_id_size, s, fixed, listing, lookup,
}

module _ {ℓ} {F : Type ℓ} (c : Sys) where
  -- The id of the device, for the qualifier that is its UID.
  unfoldable pub translate_uid : PropertyData F
  translate_uid = record {
    get_data_size = λ _ _. s object_id_size;
    write_data = needed (
      λ _ _. s c.cf_string_size,
      λ uid _ _ _ _ _.
          let id = if c.cf_string_equal uid "UID" then device_id else c.object_unknown in
          done (record { size = object_id_size; items = u32 id ∷ [] }),
    );
    read_data = none;
  }

  unfoldable pub plugin_arms : List (ℕ × PropertyData F)
  unfolding translate_uid
  plugin_arms =
      (c.base_class, fixed c class_id_size (u32 c.object_class))
      ∷ (c.class, fixed c class_id_size (u32 c.plugin_class))
      ∷ (c.owner, fixed c object_id_size (u32 c.object_unknown))
      ∷ (c.manufacturer, fixed c c.cf_string_size (cf_string "GRAME CNCM"))
      ∷ (c.owned_objects, listing (object_id_size * 1) object_id_size λ _. u32 device_id ∷ [])
      ∷ (c.device_list, listing (object_id_size * 1) object_id_size λ _. u32 device_id ∷ [])
      ∷ (c.translate_uid_to_device, translate_uid)
      ∷ (c.resource_bundle, fixed c c.cf_string_size (cf_string ""))
      ∷ []

  unfoldable pub find_plugin_property_data : Address → Option (PropertyData F)
  unfolding plugin_arms
  find_plugin_property_data address =
      if not (address.scope == c.scope_global) || not (address.element == c.element_main)
      then none
      else lookup address.selector plugin_arms
