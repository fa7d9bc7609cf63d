-- ===== src/Coreaudio/Properties/Tables.antt =====
-- All entries of the driver's tables of properties are sound: first those of the plug-in and of the
-- stream.
pub mod Device
pub mod Control
use mathlib.Core.Option.{some-injective}
use syfala_test.Common.{
  subst, ltb, ltb_false→le, zero, pos, ℕ, suc, ◌+◌, ◌*◌, ◌<◌, ◌≤◌, ◌≡◌, refl, ap, sym, ◌∙◌, Bool,
  true, false, ◌⊎◌, inl, inr, Option, none, some, List, [], ◌∷◌, ◌++◌, Each, Each-append, length,
  if◌then◌else◌, ◌==◌, Bool-cases, done, arith, u32_mod,
}
use syfala_test.Coreaudio.Objects.{
  audio_object_is_control, control_ids, control_is_volume, control_channel_index, n_channels,
  n_controls, device_id, stream_id, first_ctrl_id, n_device_owned_objs,
}
use syfala_test.Coreaudio.Status.{no_error, bad_property_size, illegal_operation}
use syfala_test.Coreaudio.Properties.Access.{write_out, Got}
use Prim.Native.String.{String}
use syfala_test.Coreaudio.Volume.{Float32}
use syfala_test.Coreaudio.Sys.{Sys, IsLaidOut}
use syfala_test.Coreaudio.State.{Driver, IsValid, Address}
use syfala_test.Coreaudio.Properties.{
  PropertyData, Memory, Value, u32, f32, cf_string, f64, value_range, basic_description,
  ranged_description, channel_layout, lookup, layout_size, u32_size, fixed, computed, listing,
  settable, size_of, class_id_size, object_id_size,
}
use syfala_test.Coreaudio.Properties.Plugin.{plugin_arms, translate_uid, find_plugin_property_data}
use syfala_test.Coreaudio.Properties.Device.{
  element_name_data, scoped_arms, identity_arms, running_arms, find_device_property_data, ids_from,
  global_or_output, or_else, preferred_layout, non_zero_u32, element_text,
}
use syfala_test.Coreaudio.Properties.Stream.{format, stream_arms, find_stream_property_data}
use syfala_test.Coreaudio.Properties.Control.{
  common_arms, mute_arms, volume_arms, get_mute, get_volume, find_control_property_data,
}
use syfala_test.Coreaudio.Properties.Sound.{
  Fits, GotFits, IsSound, computed-IsSound, listing-IsSound, settable-IsSound, unneeded-IsSound,
  once-Fits,
}

module _ {ℓ} {F : Type ℓ} (c : Sys) (l : IsLaidOut c) (d : Driver F) (id : ℕ) where
  abbrev pub Sound : PropertyData F → Type ℓ
  Sound p = IsSound c d id p

  abbrev pub ArmIsSound : ℕ × PropertyData F → Type ℓ
  ArmIsSound arm = Sound arm.1

  pub fixed-Sound : (size : ℕ) (v : Value F) → size_of c v ≡ size → Sound (fixed c size v)
  fixed-Sound size v e = computed-IsSound c l d id size (λ _ _ _ _. done v) λ addr out. (v, refl, e)

  pub answers-Sound :
      (size : ℕ) (value : Driver F → ℕ → Address → Memory F → Value F)
      → ((addr : Address) (out : Memory F) → size_of c (value d id addr out) ≡ size)
      → Sound (computed c size λ d id addr out. done (value d id addr out))
  answers-Sound size value h =
      computed-IsSound c l d id size (λ d id addr out. done (value d id addr out))
        λ addr out. (value d id addr out, refl, h addr out)

  -- A list that is written for some scopes only.
  pub choice :
      (k size : ℕ) (b : Bool) (values : List (Value F))
      → Each (λ v. size_of c v ≡ k) values
      → length values * k ≡ size
      → Each (λ v. size_of c v ≡ k) (if b then values else [])
        × ((length (if b then values else []) * k ≡ size)
            ⊎ (length (if b then values else []) * k ≡ 0))
  choice k size true values h e = (h, inl e)
  choice k size false values h e = (tt, inr (omega arith))

  pub single-Sound :
      (k : ℕ) (v : Value F)
      → 0 < k
      → k < u32_mod
      → size_of c v ≡ k
      → Sound (listing (k * 1) k λ _. v ∷ [])
  single-Sound k v positive small e =
      listing-IsSound c d id (k * 1) k _ positive (omega (arith, small))
        λ addr. ((e, tt), inl (omega arith))

  pub empty-Sound : Sound (listing 0 object_id_size λ _. [])
  empty-Sound = listing-IsSound c d id 0 4 _ (omega arith) (omega arith) λ addr. (tt, inl refl)

  translate_uid-answers :
      (addr : Address) (qual_size : ℕ) (qual_data : Option String) (n : ℕ) (out : Memory F)
      → ltb n object_id_size ≡ false
      → (r : Got F) × (write_out (translate_uid c) d id addr qual_size qual_data n out ≡ done r)
        × GotFits c object_id_size n r
  unfolding write_out translate_uid size_of
  translate_uid-answers addr qual_size none n out e = ((illegal_operation, none), rw e, λ h. cc)
  translate_uid-answers addr qual_size (some q) n out e =
      elim (Bool-cases (ltb qual_size c.cf_string_size)) [
        | inl f ↦ ((bad_property_size, none), rw (e, f), λ h. cc)
        | inr f ↦
            let uid = if c.cf_string_equal q "UID" then device_id else c.object_unknown in
            (
              (no_error, some (record { size = object_id_size; items = u32 uid ∷ [] })),
              rw (e, f),
              once-Fits c l (u32 uid) object_id_size n refl (ltb_false→le n object_id_size e),
            )
      ]

  translate_uid-Sound : Sound (translate_uid c)
  unfolding write_out translate_uid
  translate_uid-Sound addr qual_size qual_data n out = elim (Bool-cases (ltb n object_id_size)) [
    | inl e ↦ ((bad_property_size, none), rw e, λ h. cc)
    | inr e ↦ translate_uid-answers addr qual_size qual_data n out e
  ]

  pub plugin_arms-Sound : Each ArmIsSound (plugin_arms c)
  unfolding plugin_arms size_of
  plugin_arms-Sound = (
    fixed-Sound _ _ refl,
    (
      fixed-Sound _ _ refl,
      (
        fixed-Sound _ _ refl,
        (
          fixed-Sound _ _ refl,
          (
            single-Sound 4 (u32 device_id) (omega arith) (omega arith) refl,
            (
              single-Sound 4 (u32 device_id) (omega arith) (omega arith) refl,
              (translate_uid-Sound, (fixed-Sound _ _ refl, tt)),
            ),
          ),
        ),
      ),
    ),
  )

  pub large : {n : ℕ} → n < 0x1_0000 → n < u32_mod
  large h = omega (arith, h)

  formats-Sound : Sound (
      listing
        (c.ranged_description_size * 1)
        c.ranged_description_size
        λ _. ranged_description (format c) (pos 48000) (pos 48000) ∷ [])
  unfolding size_of
  formats-Sound =
      single-Sound c.ranged_description_size _ l.ranged_description_size_pos
        (large l.ranged_description_size_small) refl

  is_active-Sound :
      Sound (computed c u32_size λ d _ _ _. done (u32 (if d.is_output_stream_active then 1 else 0)))
  unfolding size_of
  is_active-Sound =
      answers-Sound u32_size (λ d _ _ _. u32 (if d.is_output_stream_active then 1 else 0))
        λ addr out. refl

  pub stream_arms-Sound : Each ArmIsSound (stream_arms c)
  unfolding stream_arms size_of
  stream_arms-Sound = (
    fixed-Sound _ _ refl,
    (
      fixed-Sound _ _ refl,
      (
        fixed-Sound _ _ refl,
        (
          empty-Sound,
          (
            fixed-Sound _ _ refl,
            (
              fixed-Sound _ _ refl,
              (
                fixed-Sound _ _ refl,
                (
                  fixed-Sound _ _ refl,
                  (
                    fixed-Sound _ _ refl,
                    (
                      formats-Sound,
                      (
                        formats-Sound,
                        (
                          fixed-Sound _ _ refl,
                          (fixed-Sound _ _ refl, (settable-IsSound c d id _ _ is_active-Sound, tt)),
                        ),
                      ),
                    ),
                  ),
                ),
              ),
            ),
          ),
        ),
      ),
    ),
  )
