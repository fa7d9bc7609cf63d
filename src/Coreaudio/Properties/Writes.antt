-- ===== src/Coreaudio/Properties/Writes.antt =====
-- What `set_property_data` does, for any request of the host.
use Prim.Native.String.{String}
use syfala_test.Common.{
  ℕ, ◌≡◌, refl, true, inl, inr, ◌⊎◌, Option, none, some, ltb, Bool-cases, done,
}
use syfala_test.Coreaudio.Status.{
  Status, eq_driver_ptr, no_error, bad_object, illegal_operation, bad_property_size,
  unknown_property,
}
use syfala_test.Coreaudio.Volume.{Float32}
use syfala_test.Coreaudio.Sys.{Sys}
use syfala_test.Coreaudio.State.{Address, Driver, IsValid}
use syfala_test.Coreaudio.Properties.{PropertyData, Memory}
use syfala_test.Coreaudio.Properties.Find.{Found, found, missing, find_property_data}
use syfala_test.Coreaudio.Properties.Access.{
  read_in, missing_status, set_property_data, is_property_settable,
}
use syfala_test.Coreaudio.Properties.Finds.{find-Total}
use syfala_test.Coreaudio.Properties.Keeps.{Keeps, Keeps-refl, IsKeeping}
use syfala_test.Coreaudio.Properties.Keeps.All.{all-Keeping}

module _ {ℓ} {F : Type ℓ} ⦃f : Float32 F⦄ (c : Sys) (raw_driver_ptr driver id : ℕ)
    (d : Driver F) where
  -- What became of the driver: it is as it was, or the property is one that can be set.
  abbrev pub Allowed : Option Address → Status → Driver F → Type ℓ
  Allowed addr st d' =
      (d' ≡ d)
      ⊎ ((st ≡ no_error)
          × (is_property_settable F c raw_driver_ptr driver id addr true ≡ (no_error, some true)))

  -- All that is asked of an answer of `set_property_data`.
  abbrev pub Settled : Option Address → Option String → ℕ → Option (Memory F) → Type ℓ
  Settled addr qual n input =
      (st : Status) × (d' : Driver F) × (set_property_data F c raw_driver_ptr driver id addr qual n
          input d
        ≡ done (st, d'))
      × Keeps d d'
      × Allowed addr st d'

  entry-Settled :
      (addr : Address) (qual : Option String) (n : ℕ) (input : Option (Memory F))
      (p : PropertyData F)
      → eq_driver_ptr raw_driver_ptr driver ≡ true
      → find_property_data c id addr ≡ done (found p)
      → IsKeeping d id p
      → Settled (some addr) qual n input
  unfolding set_property_data read_in is_property_settable
  entry-Settled addr qual n none p e h k = (illegal_operation, d, rw (e, h), Keeps-refl d, inl refl)
  entry-Settled addr qual n (some input) p e h k =
      elim (Bool-cases (ltb n (p.get_data_size id addr).0)) [
        | inl g ↦ (bad_property_size, d, rw (e, h, g), Keeps-refl d, inl refl)
        | inr g ↦ elim k [
          | inl none_read ↦ (unknown_property, d, rw (e, h, g, none_read), Keeps-refl d, inl refl)
          | inr (reader, at, keeps) ↦
              let (d', run, kept) = keeps addr input in
              (no_error, d', rw (e, h, g, at, run), kept, inr (refl, rw (e, h, at)))
        ]
      ]

  found-Settled :
      (addr : Address) (qual : Option String) (n : ℕ) (input : Option (Memory F)) (r : Found F)
      → eq_driver_ptr raw_driver_ptr driver ≡ true
      → find_property_data c id addr ≡ done r
      → ((p : PropertyData F) → r ≡ found p → IsKeeping d id p)
      → Settled (some addr) qual n input
  unfolding set_property_data
  found-Settled addr qual n input (found p) e h k = entry-Settled addr qual n input p e h (k p refl)
  found-Settled addr qual n input (missing known) e h k =
      (missing_status known, d, rw (e, h), Keeps-refl d, inl refl)

  driver-Settled :
      (addr : Option Address) (qual : Option String) (n : ℕ) (input : Option (Memory F))
      → eq_driver_ptr raw_driver_ptr driver ≡ true
      → IsValid d
      → Settled addr qual n input
  unfolding set_property_data
  driver-Settled none qual n input e valid = (illegal_operation, d, rw e, Keeps-refl d, inl refl)
  driver-Settled (some addr) qual n input e valid =
      let (r, h, k) = find-Total c id (IsKeeping d id) (all-Keeping c d id valid) addr in
      found-Settled addr qual n input r e h k

  -- On a driver with a cell for each control, `set_property_data` answers any request without panic.
  -- The host, the count of references, the IO and the number of the cells stay as they are. And the
  -- whole driver stays as it is unless `is_property_settable` says that the property can be set;
  -- then the answer is `no_error`.
  pub set_property_data-Settled :
      (addr : Option Address) (qual : Option String) (n : ℕ) (input : Option (Memory F))
      → IsValid d
      → Settled addr qual n input
  unfolding set_property_data
  set_property_data-Settled addr qual n input valid =
      elim (Bool-cases (eq_driver_ptr raw_driver_ptr driver)) [
        | inl e ↦ driver-Settled addr qual n input e valid
        | inr e ↦ (bad_object, d, rw e, Keeps-refl d, inl refl)
      ]
