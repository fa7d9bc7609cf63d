-- ===== src/Coreaudio/Properties/Agree.antt =====
-- The entry points agree on which properties there are.
use Prim.Native.String.{String}
use syfala_test.Coreaudio.Properties.Reads.{missing_status-error}
use syfala_test.Common.{
  sym, ap, ◌∙◌, ℕ, ◌≡◌, ◌≢◌, refl, true, false, inl, inr, ◌⊎◌, Option, none, some, Bool-cases,
  Outcome, done, panicked,
}
use syfala_test.Coreaudio.Status.{Status, eq_driver_ptr, no_error, bad_object, unspecified}
use syfala_test.Coreaudio.Volume.{Float32}
use syfala_test.Coreaudio.Sys.{Sys}
use syfala_test.Coreaudio.State.{Address, Driver}
use syfala_test.Coreaudio.Properties.{Memory}
use syfala_test.Coreaudio.Properties.Find.{Found, found, missing, find_property_data}
use syfala_test.Coreaudio.Properties.Access.{
  missing_status, has_property, is_property_settable, get_property_data_size, get_property_data,
  set_property_data,
}

module _ {ℓ} (F : Type ℓ) ⦃f : Float32 F⦄ (c : Sys) (raw_driver_ptr driver id : ℕ) where
  -- The status of the questions about a property.
  abbrev pub asked : Option Address → Status
  asked addr = (is_property_settable F c raw_driver_ptr driver id addr true).0

  abbrev pub Agreement :
      Address → ℕ → Option String → ℕ → Memory F → Option (Memory F) → Driver F → Type ℓ
  Agreement addr qual_size qual n out input d =
      ((get_property_data_size F c raw_driver_ptr driver id (some addr) true).0 ≡ asked (some addr))
      × (((has_property F c raw_driver_ptr driver id (some addr) ≡ true)
            × (asked (some addr) ≡ no_error))
          ⊎ ((has_property F c raw_driver_ptr driver id (some addr) ≡ false)
              × (asked (some addr) ≢ no_error)
              × (get_property_data F c raw_driver_ptr driver id (some addr) qual_size qual n true
                    (some out) d
                  ≡ done (asked (some addr), none))
              × (set_property_data F c raw_driver_ptr driver id (some addr) qual n input d
                  ≡ done (asked (some addr), d))))

  -- What follows from the status of a property that is not there.
  refused :
      (addr : Address) (qual_size : ℕ) (qual : Option String) (n : ℕ) (out : Memory F)
      (input : Option (Memory F)) (d : Driver F) (st : Status)
      → st ≢ no_error
      → asked (some addr) ≡ st
      → (get_property_data_size F c raw_driver_ptr driver id (some addr) true).0 ≡ st
      → has_property F c raw_driver_ptr driver id (some addr) ≡ false
      → get_property_data F c raw_driver_ptr driver id
          (some addr)
          qual_size
          qual
          n
          true
          (some out)
          d
        ≡ done (st, none)
      → set_property_data F c raw_driver_ptr driver id (some addr) qual n input d ≡ done (st, d)
      → Agreement addr qual_size qual n out input d
  refused addr qual_size qual n out input d st err a size has get put = (
    size ∙ sym a,
    inr (
      has,
      λ h. err (sym a ∙ h),
      get ∙ ap (λ x. done (x, none)) (sym a),
      put ∙ ap (λ x. done (x, d)) (sym a),
    ),
  )

  search-Agreement :
      (addr : Address) (qual_size : ℕ) (qual : Option String) (n : ℕ) (out : Memory F)
      (input : Option (Memory F)) (d : Driver F) (o : Outcome (Found F))
      → eq_driver_ptr raw_driver_ptr driver ≡ true
      → find_property_data c id addr ≡ o
      → Agreement addr qual_size qual n out input d
  unfolding has_property is_property_settable get_property_data_size get_property_data
      set_property_data
  search-Agreement addr qual_size qual n out input d panicked e h =
      refused addr qual_size qual n out input d unspecified (λ q. cc) (rw (asked, e, h)) (rw (e, h))
        (rw (e, h)) (rw (e, h)) (rw (e, h))
  search-Agreement addr qual_size qual n out input d (done (missing known)) e h =
      refused addr qual_size qual n out input d (missing_status known) (missing_status-error known)
        (rw (asked, e, h)) (rw (e, h)) (rw (e, h)) (rw (e, h)) (rw (e, h))
  search-Agreement addr qual_size qual n out input d (done (found p)) e h =
      (rw (asked, e, h), inl (rw (e, h), rw (asked, e, h)))

  -- The entry points agree on which properties there are. If `has_property` says yes, then
  -- `is_property_settable` and `get_property_data_size` answer with `no_error`. If it says no, then
  -- they answer with the same error, which is also what `get_property_data` and `set_property_data`
  -- answer, and these write no data and leave the driver as it is. This is for pointers that are not
  -- null, but for that to the input of `set_property_data`, and any pointer to the driver.
  pub entry_points-Agree :
      (addr : Address) (qual_size : ℕ) (qual : Option String) (n : ℕ) (out : Memory F)
      (input : Option (Memory F)) (d : Driver F)
      → Agreement addr qual_size qual n out input d
  unfolding has_property is_property_settable get_property_data_size get_property_data
      set_property_data
  entry_points-Agree addr qual_size qual n out input d =
      elim (Bool-cases (eq_driver_ptr raw_driver_ptr driver)) [
        | inl e ↦
            search-Agreement addr qual_size qual n out input d (find_property_data c id addr) e refl
        | inr e ↦
            refused addr qual_size qual n out input d bad_object (λ q. cc) (rw (asked, e)) (rw e)
              (rw e) (rw e) (rw e)
      ]
