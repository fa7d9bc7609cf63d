-- ===== src/Coreaudio/Properties/Reads.antt =====
-- What the entry points answer, for any request of the host.
use Prim.Native.String.{String}
use syfala_test.Common.{
  ℕ, ◌≡◌, ◌≢◌, refl, Bool, true, false, inl, inr, Option, none, some, Bool-cases, done,
}
use syfala_test.Coreaudio.Status.{eq_driver_ptr, no_error, bad_object, illegal_operation}
use syfala_test.Coreaudio.Volume.{Float32}
use syfala_test.Coreaudio.Sys.{Sys, IsLaidOut}
use syfala_test.Coreaudio.State.{Address, Driver, IsValid}
use syfala_test.Coreaudio.Properties.{PropertyData, Memory}
use syfala_test.Coreaudio.Properties.Find.{Found, found, missing, find_property_data}
use syfala_test.Coreaudio.Properties.Access.{
  Got, missing_status, get_property_data, get_property_data_size,
}
use syfala_test.Coreaudio.Properties.Sound.{Fits, GotFits, IsSound}
use syfala_test.Coreaudio.Properties.Finds.{Holds, find-Total}
use syfala_test.Coreaudio.Properties.Tables.{plugin_arms-Sound, stream_arms-Sound}
use syfala_test.Coreaudio.Properties.Tables.Device.{
  element_name-Sound, scoped_arms-Sound, identity_arms-Sound, running_arms-Sound,
}
use syfala_test.Coreaudio.Properties.Tables.Control.{
  common_arms-Sound, mute_arms-Sound, volume_arms-Sound,
}

pub missing_status-error : (known : Bool) → missing_status known ≢ no_error
missing_status-error true h = cc
missing_status-error false h = cc

module _ {ℓ} {F : Type ℓ} ⦃f : Float32 F⦄ (c : Sys) (l : IsLaidOut c) (d : Driver F) (id : ℕ) where
  all-Sound : IsValid d → Holds c id (IsSound c d id)
  all-Sound valid = record {
    on_plugin = plugin_arms-Sound c l d id;
    on_element_name = element_name-Sound c l d id;
    on_scoped = scoped_arms-Sound c l d id;
    on_identity = identity_arms-Sound c l d id;
    on_running = running_arms-Sound c l d id;
    on_stream = stream_arms-Sound c l d id;
    on_common = common_arms-Sound c l d id;
    on_volume = λ control. volume_arms-Sound c l d id control valid;
    on_mute = λ control. mute_arms-Sound c l d id control valid;
  }

module _ {ℓ} {F : Type ℓ} ⦃f : Float32 F⦄ (c : Sys) (raw_driver_ptr driver id : ℕ) where
  -- An answer of `get_property_data` to a request with a place of `n` bytes. Data comes only with
  -- `no_error`, and fits the size that `get_property_data_size` tells.
  abbrev pub Honest : Option Address → ℕ → Got F → Type 0
  Honest addr n (status, none) = status ≢ no_error
  Honest addr n (status, some w) =
      (announced : ℕ) × (get_property_data_size F c raw_driver_ptr driver id addr true
        ≡ (no_error, some announced))
      × Fits c announced n w

  found-Honest :
      (addr : Address) (n : ℕ) (p : PropertyData F) (r : Got F)
      → eq_driver_ptr raw_driver_ptr driver ≡ true
      → find_property_data c id addr ≡ done (found p)
      → GotFits c (p.get_data_size id addr).1 n r
      → Honest (some addr) n r
  unfolding get_property_data_size
  found-Honest addr n p (status, none) e h fits = fits
  found-Honest addr n p (status, some w) e h fits = ((p.get_data_size id addr).1, rw (e, h), fits)

  find-Honest :
      (d : Driver F) (addr : Address) (qual_size : ℕ) (qual_data : Option String) (n : ℕ)
      (out : Memory F) (o : Found F)
      → eq_driver_ptr raw_driver_ptr driver ≡ true
      → find_property_data c id addr ≡ done o
      → ((p : PropertyData F) → o ≡ found p → IsSound c d id p)
      → (r : Got F) × (get_property_data F c raw_driver_ptr driver id
            (some addr)
            qual_size
            qual_data
            n
            true
            (some out)
            d
          ≡ done r)
        × Honest (some addr) n r
  unfolding get_property_data
  find-Honest d addr qual_size qual_data n out (found p) e h sound =
      let (r, run, fits) = sound p refl addr qual_size qual_data n out in
      (r, rw (e, h, run), found-Honest addr n p r e h fits)
  find-Honest d addr qual_size qual_data n out (missing known) e h sound =
      ((missing_status known, none), rw (e, h), missing_status-error known)

  driver-Honest :
      (l : IsLaidOut c) (d : Driver F) (addr : Option Address) (qual_size : ℕ)
      (qual_data : Option String) (n : ℕ) (place : Bool) (out : Option (Memory F))
      → eq_driver_ptr raw_driver_ptr driver ≡ true
      → IsValid d
      → (r : Got F) × (get_property_data F c raw_driver_ptr driver id addr qual_size qual_data n
            place out d
          ≡ done r)
        × Honest addr n r
  unfolding get_property_data
  driver-Honest l d none qual_size qual_data n place out e valid =
      ((illegal_operation, none), rw e, λ h. cc)
  driver-Honest l d (some addr) qual_size qual_data n false out e valid =
      ((illegal_operation, none), rw e, λ h. cc)
  driver-Honest l d (some addr) qual_size qual_data n true none e valid =
      ((illegal_operation, none), rw e, λ h. cc)
  driver-Honest l d (some addr) qual_size qual_data n true (some out) e valid =
      let (r, h, sound) = find-Total c id (IsSound c d id) (all-Sound c l d id valid) addr in
      find-Honest d addr qual_size qual_data n out r e h sound

  -- On a driver with a cell for each control, `get_property_data` answers any request without
  -- panic, even if it is for an object, a property or a place that is not there: either with an
  -- error and no data, or with data of the size that it returns, which is no more than the place
  -- has, and either all that `get_property_data_size` announced or nothing.
  pub get_property_data-Honest :
      (l : IsLaidOut c) (d : Driver F) (addr : Option Address) (qual_size : ℕ)
      (qual_data : Option String) (n : ℕ) (place : Bool) (out : Option (Memory F))
      → IsValid d
      → (r : Got F) × (get_property_data F c raw_driver_ptr driver id addr qual_size qual_data n
            place out d
          ≡ done r)
        × Honest addr n r
  unfolding get_property_data
  get_property_data-Honest l d addr qual_size qual_data n place out valid =
      elim (Bool-cases (eq_driver_ptr raw_driver_ptr driver)) [
        | inl e ↦ driver-Honest l d addr qual_size qual_data n place out e valid
        | inr e ↦ ((bad_object, none), rw e, λ h. cc)
      ]
