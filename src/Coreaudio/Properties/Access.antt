-- ===== src/Coreaudio/Properties/Access.antt =====
-- The entry points for properties of `syfala_coreaudio/src/lib.rs`. A pointer that the host passes
-- is an option, and one to a place for a result a Boolean: whether it is null. A place that holds
-- something when it is written to is a `Memory`.
use Prim.Native.String.{String}
use syfala_test.Common.{
  ℕ, Bool, true, false, not, ltb, if◌then◌else◌, Option, none, some, Outcome, done, panicked, ◌>>=◌,
}
use syfala_test.Coreaudio.Status.{
  Status, no_error, bad_object, illegal_operation, unknown_property, bad_property_size, unspecified,
  eq_driver_ptr,
}
use syfala_test.Coreaudio.Volume.{Float32}
use syfala_test.Coreaudio.Sys.{Sys}
use syfala_test.Coreaudio.State.{Address, Driver}
use syfala_test.Coreaudio.Properties.{PropertyData, needed, unneeded, Written, Memory}
use syfala_test.Coreaudio.Properties.Find.{Found, found, missing, find_property_data}

-- The status for a property that is not found.
abbrev pub missing_status : Bool → Status
missing_status known = if known then unknown_property else bad_object

-- `catch_unwind`
abbrev pub catch_unwind {ℓ κ} : {A : Type ℓ} {B : Type κ} → B → (A → B) → Outcome A → B
catch_unwind on_panic f (done a) = f a
catch_unwind on_panic f panicked = on_panic

-- The answer of `get_property_data`, and what is written with its size.
abbrev pub Got {ℓ} : Type ℓ → Type ℓ
Got F = Status × Option (Written F)

module _ {ℓ} {F : Type ℓ} where
  -- What is answered for a property, found or missing.
  abbrev pub or_missing {κ} : {B : Type κ} → (Status → B) → (PropertyData F → B) → Found F → B
  or_missing err f (found p) = f p
  or_missing err f (missing known) = err (missing_status known)

  abbrev pub is_found : Found F → Bool
  is_found (found p) = true
  is_found (missing known) = false

  abbrev pub is_settable : PropertyData F → Bool
  is_settable p = elim p.read_data [ some r ↦ true | none ↦ false ]

  abbrev pub got : Outcome (Written F) → Outcome (Got F)
  got w = do written ← w; done (no_error, some written)

  -- The end of `get_property_data`: the sizes are checked and the data is written.
  unfoldable pub write_out :
      PropertyData F → Driver F → ℕ → Address → ℕ → Option String → ℕ → Memory F → Outcome (Got F)
  write_out p d obj_id addr qual_size qual_data data_size out_data =
      if ltb data_size (p.get_data_size obj_id addr).0
      then done (bad_property_size, none)
      else elim p.write_data [
        | unneeded f ↦ got (f d obj_id addr data_size out_data)
        | needed (get_qual_size, write_data) ↦ elim qual_data [
          | none ↦ done (illegal_operation, none)
          | some q ↦
              if ltb qual_size (get_qual_size obj_id addr).0
              then done (bad_property_size, none)
              else got (write_data q d obj_id addr data_size out_data)
        ]
      ]

  -- The end of `set_property_data`.
  unfoldable pub read_in :
      PropertyData F
      → Driver F
      → ℕ
      → Address
      → Option String
      → ℕ
      → Option (Memory F)
      → Outcome (Status × Driver F)
  read_in p d obj_id addr qual_data data_size none = done (illegal_operation, d)
  read_in p d obj_id addr qual_data data_size (some input) =
      if ltb data_size (p.get_data_size obj_id addr).0
      then done (bad_property_size, d)
      else elim p.read_data [
        | none ↦ done (unknown_property, d)
        | some (unneeded f) ↦ (do d' ← f d obj_id addr input; done (no_error, d'))
        | some (needed f) ↦ elim qual_data [
          | none ↦ done (no_error, d)
          | some q ↦ (do d' ← f q d obj_id addr input; done (no_error, d'))
        ]
      ]

module _ {ℓ} (F : Type ℓ) ⦃f : Float32 F⦄ (c : Sys) (raw_driver_ptr : ℕ) where
  unfoldable pub has_property : ℕ → ℕ → Option Address → Bool
  unfolding find_property_data
  has_property driver obj_id none = false
  has_property driver obj_id (some addr) =
      if not (eq_driver_ptr raw_driver_ptr driver)
      then false
      else catch_unwind false is_found (find_property_data {F = F} c obj_id addr)

  unfoldable pub is_property_settable : ℕ → ℕ → Option Address → Bool → Status × Option Bool
  unfolding find_property_data
  is_property_settable driver obj_id addr place =
      if not (eq_driver_ptr raw_driver_ptr driver) then (bad_object, none) else elim addr [
        | none ↦ (illegal_operation, none)
        | some a ↦
            if not place
            then (illegal_operation, none)
            else catch_unwind (unspecified, none)
                (or_missing (λ e. (e, none)) λ p. (no_error, some (is_settable p)))
                (find_property_data {F = F} c obj_id a)
      ]

  -- The largest size.
  unfoldable pub get_property_data_size : ℕ → ℕ → Option Address → Bool → Status × Option ℕ
  unfolding find_property_data
  get_property_data_size driver obj_id addr place =
      if not (eq_driver_ptr raw_driver_ptr driver) then (bad_object, none) else elim addr [
        | none ↦ (illegal_operation, none)
        | some a ↦
            if not place
            then (illegal_operation, none)
            else catch_unwind (unspecified, none)
                (or_missing (λ e. (e, none)) λ p. (no_error, some (p.get_data_size obj_id a).1))
                (find_property_data {F = F} c obj_id a)
      ]

  unfoldable pub get_property_data :
      ℕ
      → ℕ
      → Option Address
      → ℕ
      → Option String
      → ℕ
      → Bool
      → Option (Memory F)
      → Driver F
      → Outcome (Status × Option (Written F))
  unfolding find_property_data write_out
  get_property_data driver obj_id addr qual_size qual_data data_size place out_data d =
      if not (eq_driver_ptr raw_driver_ptr driver) then done (bad_object, none) else elim addr [
        | none ↦ done (illegal_operation, none)
        | some a ↦ if not place then done (illegal_operation, none) else elim out_data [
          | none ↦ done (illegal_operation, none)
          | some out ↦
              catch_unwind (done (unspecified, none))
                (or_missing (λ e. done (e, none))
                  λ p. write_out p d obj_id a qual_size qual_data data_size out)
                (find_property_data c obj_id a)
        ]
      ]

  unfoldable pub set_property_data :
      ℕ
      → ℕ
      → Option Address
      → Option String
      → ℕ
      → Option (Memory F)
      → Driver F
      → Outcome (Status × Driver F)
  unfolding find_property_data read_in
  set_property_data driver obj_id addr qual_data data_size input d =
      if not (eq_driver_ptr raw_driver_ptr driver) then done (bad_object, d) else elim addr [
        | none ↦ done (illegal_operation, d)
        | some a ↦
            catch_unwind (done (unspecified, d))
              (or_missing (λ e. done (e, d)) λ p. read_in p d obj_id a qual_data data_size input)
              (find_property_data c obj_id a)
      ]
