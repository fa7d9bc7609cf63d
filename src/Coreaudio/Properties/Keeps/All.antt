-- ===== src/Coreaudio/Properties/Keeps/All.antt =====
-- Which entries of the driver's tables can be set, and that setting them keeps the rest.
use syfala_test.Common.{ℕ, refl, inl, inr}
use syfala_test.Coreaudio.Volume.{Float32, norm_to_gain, db_to_gain}
use syfala_test.Coreaudio.Sys.{Sys}
use syfala_test.Coreaudio.State.{Driver, IsValid}
use syfala_test.Coreaudio.Properties.Plugin.{plugin_arms, translate_uid}
use syfala_test.Coreaudio.Properties.Device.{
  element_name_data, scoped_arms, identity_arms, running_arms, preferred_layout,
}
use syfala_test.Coreaudio.Properties.Stream.{stream_arms, set_is_active}
use syfala_test.Coreaudio.Properties.Control.{
  common_arms, volume_arms, mute_arms, set_mute, set_gain,
}
use syfala_test.Coreaudio.Properties.Finds.{Holds}
use syfala_test.Coreaudio.Properties.Keeps.{
  IsKeeping, set_is_active-Keeps, set_mute-Keeps, set_gain-Keeps,
}

module _ {ℓ} {F : Type ℓ} ⦃f : Float32 F⦄ (c : Sys) (d : Driver F) (id : ℕ) where
  -- Four entries can be set: whether the stream is active, the two forms of a volume, and the mute.
  pub all-Keeping : IsValid d → Holds c id (IsKeeping d id)
  unfolding plugin_arms translate_uid element_name_data scoped_arms preferred_layout identity_arms
      running_arms stream_arms common_arms volume_arms mute_arms
  all-Keeping valid = record {
    on_plugin = (
      inl refl,
      (inl refl, (inl refl, (inl refl, (inl refl, (inl refl, (inl refl, (inl refl, tt))))))),
    );
    on_element_name = inl refl;
    on_scoped = (inl refl, (inl refl, (inl refl, tt)));
    on_identity = (
      inl refl,
      (
        inl refl,
        (inl refl, (inl refl, (inl refl, (inl refl, (inl refl, (inl refl, (inl refl, tt))))))),
      ),
    );
    on_running = (
      inl refl,
      (
        inl refl,
        (
          inl refl,
          (
            inl refl,
            (
              inl refl,
              (
                inl refl,
                (inl refl, (inl refl, (inl refl, (inl refl, (inl refl, (inl refl, tt)))))),
              ),
            ),
          ),
        ),
      ),
    );
    on_stream = (
      inl refl,
      (
        inl refl,
        (
          inl refl,
          (
            inl refl,
            (
              inl refl,
              (
                inl refl,
                (
                  inl refl,
                  (
                    inl refl,
                    (
                      inl refl,
                      (
                        inl refl,
                        (
                          inl refl,
                          (
                            inl refl,
                            (
                              inl refl,
                              (inr (set_is_active c, refl, set_is_active-Keeps c d id), tt),
                            ),
                          ),
                        ),
                      ),
                    ),
                  ),
                ),
              ),
            ),
          ),
        ),
      ),
    );
    on_common = λ control. (inl refl, (inl refl, (inl refl, (inl refl, tt))));
    on_volume = λ control. (
      inl refl,
      (
        inl refl,
        (
          inr (
            set_gain c norm_to_gain c.decibel_value,
            refl,
            set_gain-Keeps c d id norm_to_gain c.decibel_value control valid,
          ),
          (
            inr (
              set_gain c db_to_gain c.scalar_value,
              refl,
              set_gain-Keeps c d id db_to_gain c.scalar_value control valid,
            ),
            (inl refl, (inl refl, (inl refl, tt))),
          ),
        ),
      ),
    );
    on_mute = λ control.
        (inl refl, (inl refl, (inr (set_mute c, refl, set_mute-Keeps c d id control valid), tt)));
  }
