-- ===== src/Coreaudio/Properties/Tables/Control.antt =====
-- All properties of the controls are sound, on a driver with a cell for each.
use syfala_test.Common.{
  ℕ, ◌<◌, ◌≡◌, refl, ap, Bool, true, Option, some, List, Each, length, if◌then◌else◌, done, arith,
}
use syfala_test.Coreaudio.Objects.{audio_object_is_control, control_channel_index, channel}
use syfala_test.Coreaudio.Volume.{Float32}
use syfala_test.Coreaudio.Sys.{Sys, IsLaidOut}
use syfala_test.Coreaudio.State.{Driver, IsValid}
use syfala_test.Coreaudio.Properties.{u32, f32, u32_size, computed, size_of}
use syfala_test.Coreaudio.Properties.Control.{
  common_arms, mute_arms, volume_arms, get_mute, get_volume,
}
use syfala_test.Coreaudio.Properties.Sound.{computed-IsSound, settable-IsSound}
use syfala_test.Common.{get_elem?, get_elem?_within, ◌>>=◌}
use mathlib.Core.Option.{map as map_option}
use syfala_test.Coreaudio.Volume.{
  volume_control_db_val, volume_control_norm_val, norm_to_db, db_to_norm, gain_to_db, sq,
  linear_remap, vol_min_db, vol_max_db, vol_db_range,
}
use syfala_test.Coreaudio.Properties.Tables.{
  Sound, ArmIsSound, fixed-Sound, answers-Sound, empty-Sound,
}

module _ {ℓ} {F : Type ℓ} (c : Sys) (l : IsLaidOut c) (d : Driver F) (id : ℕ)
    (control : audio_object_is_control id ≡ true) where
  element-Sound :
      Sound c l d id
        (computed c u32_size λ _ id _ _. control_channel_index id >>= λ k. done (u32 k))
  unfolding size_of
  element-Sound =
      let (k, e, b) = channel id control in
      computed-IsSound c l d id u32_size
        (λ _ id _ _. control_channel_index id >>= λ k. done (u32 k)) λ addr out. (u32 k, rw e, refl)

  pub common_arms-Sound : Each (ArmIsSound c l d id) (common_arms c)
  unfolding common_arms size_of
  common_arms-Sound = (
    fixed-Sound c l d id _ _ refl,
    (empty-Sound c l d id, (fixed-Sound c l d id _ _ refl, (element-Sound, tt))),
  )

  get_mute-eq :
      (k : ℕ) (m : Bool)
      → control_channel_index id ≡ done k
      → get_elem? d.output_mute k ≡ some m
      → get_mute c d id ≡ done (u32 (if m then 1 else 0))
  unfolding get_mute
  get_mute-eq k m e f = rw (e, f)

  mute-Sound : IsValid d → Sound c l d id (computed c u32_size λ d id _ _. get_mute c d id)
  unfolding size_of
  mute-Sound valid =
      let (k, e, b) = channel id control in
      let (m, f) = get_elem?_within d.output_mute k (omega (arith, b, valid.mutes)) in
      let run : get_mute c d id ≡ done (u32 (if m then 1 else 0)) = get_mute-eq k m e f in
      computed-IsSound c l d id u32_size (λ d id _ _. get_mute c d id) λ addr out. (_, run, refl)

  pub mute_arms-Sound : IsValid d → Each (ArmIsSound c l d id) (mute_arms c)
  unfolding mute_arms size_of
  mute_arms-Sound valid = (
    fixed-Sound c l d id _ _ refl,
    (fixed-Sound c l d id _ _ refl, (settable-IsSound c d id _ _ (mute-Sound valid), tt)),
  )

module _ {ℓ} {F : Type ℓ} ⦃f : Float32 F⦄ (c : Sys) (l : IsLaidOut c) (d : Driver F) (id : ℕ)
    (control : audio_object_is_control id ≡ true) where
  -- A reading of the volumes that is there for each cell.
  abbrev IsReading : (List F → ℕ → Option F) → Type ℓ
  IsReading reading = (vs : List F) (k : ℕ) → k < length vs → (v : F) × (reading vs k ≡ some v)

  db_val-IsReading : IsReading volume_control_db_val
  unfolding volume_control_db_val
  db_val-IsReading vs k h =
      let (v, e) = get_elem?_within vs k h in
      let clamped = λ (x : F). f.fmax (f.fmin (gain_to_db x) vol_max_db) vol_min_db in
      (clamped v, ap (map_option clamped) e)

  norm_val-IsReading : IsReading volume_control_norm_val
  unfolding volume_control_norm_val
  norm_val-IsReading vs k h =
      let (v, e) = db_val-IsReading vs k h in
      let norm = λ (db : F). sq (linear_remap db vol_min_db vol_db_range f.nought f.one) in
      (norm v, ap (map_option norm) e)

  get_volume-eq :
      (reading : List F → ℕ → Option F) (k : ℕ) (v : F)
      → control_channel_index id ≡ done k
      → reading d.output_volume k ≡ some v
      → get_volume c reading d id ≡ done (f32 v)
  unfolding get_volume
  get_volume-eq reading k v e h = rw (e, h)

  volume-Sound :
      IsValid d
      → (reading : List F → ℕ → Option F) → IsReading reading
      → Sound c l d id (computed c 4 λ d id _ _. get_volume c reading d id)
  unfolding size_of
  volume-Sound valid reading total =
      let (k, e, b) = channel id control in
      let (v, h) = total d.output_volume k (omega (arith, b, valid.volumes)) in
      computed-IsSound c l d id 4 (λ d id _ _. get_volume c reading d id)
        λ addr out. (f32 v, get_volume-eq reading k v e h, refl)

  pub volume_arms-Sound : IsValid d → Each (ArmIsSound c l d id) (volume_arms c)
  unfolding volume_arms size_of
  volume_arms-Sound valid = (
    fixed-Sound c l d id _ _ refl,
    (
      fixed-Sound c l d id _ _ refl,
      (
        settable-IsSound c d id _ _ (volume-Sound valid volume_control_norm_val norm_val-IsReading),
        (
          settable-IsSound c d id _ _ (volume-Sound valid volume_control_db_val db_val-IsReading),
          (
            fixed-Sound c l d id _ _ refl,
            (
              answers-Sound c l d id 4 (λ _ _ _ before. f32 (norm_to_db before.as_f32))
                  (λ addr out. refl),
              (
                answers-Sound c l d id 4 (λ _ _ _ before. f32 (db_to_norm before.as_f32))
                    (λ addr out. refl),
                tt,
              ),
            ),
          ),
        ),
      ),
    ),
  )
