-- ===== src/Coreaudio/Properties/Tables/Device.antt =====
-- All properties of the device are sound.
use syfala_test.Common.{
  zero, pos, ℕ, suc, ◌*◌, ◌≡◌, refl, inl, [], ◌∷◌, Each, if◌then◌else◌, done, arith,
}
use syfala_test.Coreaudio.Objects.{
  n_controls, device_id, stream_id, first_ctrl_id, n_device_owned_objs,
}
use syfala_test.Coreaudio.Sys.{Sys, IsLaidOut}
use syfala_test.Coreaudio.State.{Driver}
use syfala_test.Coreaudio.Properties.{
  Value, u32, cf_string, value_range, channel_layout, layout_size, u32_size, computed, listing,
  size_of, object_id_size,
}
use syfala_test.Coreaudio.Properties.Device.{
  element_name_data, scoped_arms, identity_arms, running_arms, ids_from, global_or_output,
  preferred_layout, non_zero_u32, element_text,
}
use syfala_test.Coreaudio.Properties.Sound.{listing-IsSound, unneeded-IsSound, once-Fits}
use syfala_test.Coreaudio.Properties.Tables.{
  Sound, ArmIsSound, fixed-Sound, answers-Sound, choice, single-Sound, large,
}

module _ {ℓ} {F : Type ℓ} (c : Sys) (l : IsLaidOut c) (d : Driver F) (id : ℕ) where
  pub element_name-Sound : Sound c l d id (element_name_data c)
  unfolding element_name_data size_of
  element_name-Sound =
      answers-Sound c l d id c.cf_string_size
        (λ _ _ addr _. cf_string (element_text c addr.element)) λ addr out. refl

  preferred_layout-Sound : Sound c l d id (preferred_layout c)
  unfolding preferred_layout size_of
  preferred_layout-Sound = unneeded-IsSound c d id (layout_size c) _ λ addr n out large. (
    _,
    refl,
    once-Fits c l (channel_layout c.use_channel_descriptions 0 1) (layout_size c) n refl large,
  )

  pub scoped_arms-Sound : Each (ArmIsSound c l d id) (scoped_arms c)
  unfolding scoped_arms size_of
  scoped_arms-Sound =
      (fixed-Sound c l d id _ _ refl, (fixed-Sound c l d id _ _ refl, (preferred_layout-Sound, tt)))

  ids_from-sizes : (first n : ℕ) → Each (λ (v : Value F). size_of c v ≡ 4) (ids_from first n)
  unfolding size_of
  ids_from-sizes first zero = tt
  ids_from-sizes first (suc n) = (refl, ids_from-sizes (suc first) n)

  owned_objects-Sound : Sound c l d id (
      listing (n_device_owned_objs * object_id_size) object_id_size λ addr.
        if global_or_output c addr then u32 stream_id ∷ ids_from first_ctrl_id n_controls else [])
  unfolding size_of
  owned_objects-Sound =
      listing-IsSound c d id _ object_id_size _ (omega arith) (omega arith) λ addr.
        choice c l d id 4 140 (global_or_output c addr)
          (u32 stream_id ∷ ids_from first_ctrl_id n_controls) (ids_from-sizes 3 35) refl

  controls-Sound :
      Sound c l d id (
        listing (n_controls * object_id_size) object_id_size λ _. ids_from first_ctrl_id n_controls)
  controls-Sound =
      listing-IsSound c d id _ object_id_size _ (omega arith) (omega arith)
        λ addr. (ids_from-sizes 4 34, inl refl)

  streams-Sound : Sound c l d id (
      listing
        (object_id_size * 1)
        object_id_size
        λ addr. if global_or_output c addr then u32 stream_id ∷ [] else [])
  unfolding size_of
  streams-Sound =
      listing-IsSound c d id _ object_id_size _ (omega arith) (omega arith)
        λ addr. choice c l d id 4 4 (global_or_output c addr) (u32 stream_id ∷ []) (refl, tt) refl

  pub identity_arms-Sound : Each (ArmIsSound c l d id) (identity_arms c)
  unfolding identity_arms size_of
  identity_arms-Sound = (
    fixed-Sound c l d id _ _ refl,
    (
      fixed-Sound c l d id _ _ refl,
      (
        fixed-Sound c l d id _ _ refl,
        (
          fixed-Sound c l d id _ _ refl,
          (
            fixed-Sound c l d id _ _ refl,
            (
              fixed-Sound c l d id _ _ refl,
              (fixed-Sound c l d id _ _ refl, (owned_objects-Sound, (controls-Sound, tt))),
            ),
          ),
        ),
      ),
    ),
  )

  running-Sound :
      Sound c l d id
        (computed c u32_size λ d _ _ _. done (u32 (non_zero_u32 d.device_io.n_active_clients)))
  unfolding size_of
  running-Sound =
      answers-Sound c l d id u32_size (λ d _ _ _. u32 (non_zero_u32 d.device_io.n_active_clients))
        λ addr out. refl

  rates-Sound : Sound c l d id (
      listing
        (c.value_range_size * 1)
        c.value_range_size
        λ _. value_range (pos 48000) (pos 48000) ∷ [])
  unfolding size_of
  rates-Sound =
      single-Sound c l d id c.value_range_size _ l.value_range_size_pos
        (large c l d id l.value_range_size_small) refl

  pub running_arms-Sound : Each (ArmIsSound c l d id) (running_arms c)
  unfolding running_arms size_of
  running_arms-Sound = (
    fixed-Sound c l d id _ _ refl,
    (
      fixed-Sound c l d id _ _ refl,
      (
        fixed-Sound c l d id _ _ refl,
        (
          single-Sound c l d id 4 (u32 device_id) (omega arith) (omega arith) refl,
          (
            fixed-Sound c l d id _ _ refl,
            (
              fixed-Sound c l d id _ _ refl,
              (
                running-Sound,
                (
                  fixed-Sound c l d id _ _ refl,
                  (
                    rates-Sound,
                    (
                      fixed-Sound c l d id _ _ refl,
                      (fixed-Sound c l d id _ _ refl, (streams-Sound, tt)),
                    ),
                  ),
                ),
              ),
            ),
          ),
        ),
      ),
    ),
  )
