-- ===== src/Coreaudio/Properties/Mute.antt =====
-- Setting and getting a control.
use Prim.Native.String.{String}
use syfala_test.Common.{
  ℕ, ◌≤◌, ◌≡◌, refl, ==_self, Bool, true, false, not, inl, inr, Option, some, [], ◌∷◌, ◌++◌, ◌==◌,
  ltb, if◌then◌else◌, Bool-cases, done, get_elem?, get_elem?-set, set, le→ltb_false, length, ◌<◌,
  arith,
}
use syfala_test.Coreaudio.Objects.{
  audio_object_is_control, control_is_volume, control_channel_index, channel, control-bounds,
}
use syfala_test.Coreaudio.Status.{no_error}
use syfala_test.Coreaudio.Volume.{Float32}
use syfala_test.Coreaudio.Sys.{Sys, IsLaidOut}
use syfala_test.Coreaudio.State.{Address, Driver, IsValid, notify, calls_host}
use syfala_test.Coreaudio.Properties.{
  PropertyData, Memory, u32, u32_size, settable, computed, lookup, size_of,
}
use syfala_test.Coreaudio.Properties.Control.{
  common_arms, mute_arms, get_mute, set_mute, find_control_property_data,
}
use syfala_test.Coreaudio.Properties.Find.{found, find_property_data}
use syfala_test.Coreaudio.Properties.Access.{
  read_in, write_out, set_property_data, get_property_data,
}
use syfala_test.Coreaudio.Properties.Sound.{write_once-eq}
use syfala_test.Coreaudio.Properties.Keeps.{store-eq}

-- The selector of the value of a mute control is none of those tested before it.
pub record IsDistinct (c : Sys) : Type 0 where
  pub not_owner : (c.boolean_value == c.owner) ≡ false
  pub not_owned_objects : (c.boolean_value == c.owned_objects) ≡ false
  pub not_scope : (c.boolean_value == c.control_scope) ≡ false
  pub not_element : (c.boolean_value == c.control_element) ≡ false
  pub not_base_class : (c.boolean_value == c.base_class) ≡ false
  pub not_class : (c.boolean_value == c.class) ≡ false

flip : (b : Bool) → ◌≡◌ {A = ℕ} (if not b then 1 else 0) (if b then 0 else 1)
flip true = refl
flip false = refl

not_object : (id k : ℕ) → 4 ≤ id → k < 4 → (id == k) ≡ false
not_object id k h g = ground arith

module _ {ℓ} {F : Type ℓ} ⦃f : Float32 F⦄ (c : Sys) where
  abbrev mute_entry : PropertyData F
  mute_entry = settable (set_mute c) (computed c u32_size λ d id _ _. get_mute c d id)

  find_value :
      (k : ℕ) (addr : Address)
      → IsDistinct c
      → addr.selector ≡ c.boolean_value
      → find_control_property_data c false k addr ≡ some mute_entry
  unfolding find_control_property_data lookup common_arms mute_arms
  find_value k addr distinct sel = rw (
    sel,
    distinct.not_owner,
    distinct.not_owned_objects,
    distinct.not_scope,
    distinct.not_element,
    distinct.not_base_class,
    distinct.not_class,
    ==_self c.boolean_value,
  )

  find_mute :
      (id : ℕ) (addr : Address)
      → IsDistinct c
      → audio_object_is_control id ≡ true
      → control_is_volume id ≡ false
      → addr.selector ≡ c.boolean_value
      → find_property_data {F = F} c id addr ≡ done (found mute_entry)
  unfolding find_property_data
  find_mute id addr distinct control mute sel =
      let (k, e, b) = channel id control in
      let (lo, hi) = control-bounds id control in
      rw (
        not_object id 1 lo (omega arith),
        not_object id 2 lo (omega arith),
        not_object id 3 lo (omega arith),
        control,
        e,
        mute,
        find_value k addr distinct sel,
      )

  -- The driver after the mute of a channel is set.
  unfoldable pub muted : ℕ → ℕ → Address → Bool → Driver F → Driver F
  muted id k addr b d = notify id (addr ∷ []) (record (d) { output_mute = set d.output_mute k b })

  set_value :
      (id k : ℕ) (addr : Address) (input : Memory F) (d : Driver F) (n : ℕ) (qual : Option String)
      → control_channel_index id ≡ done k
      → k < length d.output_mute
      → ltb n 4 ≡ false
      → read_in mute_entry d id addr qual n (some input)
        ≡ done (no_error, muted id k addr (not (input.as_u32 == 0)) d)
  unfolding read_in set_mute muted
  set_value id k addr input d n qual e b large =
      rw (large, e, store-eq d.output_mute k (not (input.as_u32 == 0)) b)

  muted_cells :
      (id k : ℕ) (addr : Address) (b : Bool) (d : Driver F)
      → (muted id k addr b d).output_mute ≡ set d.output_mute k b
  unfolding muted notify
  muted_cells id k addr b d = elim (Bool-cases (calls_host d.host)) [ inl e ↦ rw e | inr e ↦ rw e ]

  muted_told :
      (id k : ℕ) (addr : Address) (b : Bool) (d : Driver F)
      → calls_host d.host ≡ true
      → (muted id k addr b d).changes
        ≡ d.changes ++ record { object = id; addresses = addr ∷ [] } ∷ []
  unfolding muted notify
  muted_told id k addr b d e = rw e

  muted-cell :
      (id k : ℕ) (addr : Address) (b : Bool) (d : Driver F)
      → k < length d.output_mute
      → get_elem? (muted id k addr b d).output_mute k ≡ some b
  muted-cell id k addr b d h = rw (muted_cells id k addr b d, get_elem?-set d.output_mute k b h)

  get_value :
      (id k : ℕ) (addr : Address) (b : Bool) (out : Memory F) (d : Driver F) (n qual_size : ℕ)
      (qual : Option String)
      → IsLaidOut c
      → control_channel_index id ≡ done k
      → get_elem? d.output_mute k ≡ some b
      → ltb n 4 ≡ false
      → write_out mute_entry d id addr qual_size qual n out
        ≡ done (no_error, some (record { size = 4; items = u32 (if b then 1 else 0) ∷ [] }))
  unfolding write_out get_mute size_of
  get_value id k addr b out d n qual_size qual l e at large =
      rw (large, e, at, write_once-eq c l (u32 (if b then 1 else 0)))

  -- Setting the mute of a channel, with a place of at least four bytes, on a driver with a cell for
  -- each control and for a host that has a callback: the answer is `no_error`; a number other than 0
  -- mutes the channel; the cells of other channels stay as they are; the host is told of the address;
  -- and getting the property then gives 1 for a muted channel and 0 for one that is not.
  pub mute-RoundTrip :
      (raw_driver_ptr id n qual_size : ℕ) (addr : Address) (input out : Memory F) (d : Driver F)
      (qual : Option String)
      → IsLaidOut c
      → IsDistinct c
      → IsValid d
      → audio_object_is_control id ≡ true
      → control_is_volume id ≡ false
      → addr.selector ≡ c.boolean_value
      → 4 ≤ n
      → calls_host d.host ≡ true
      → (k : ℕ) × (d' : Driver F) × (control_channel_index id ≡ done k)
        × (set_property_data F c raw_driver_ptr raw_driver_ptr id (some addr) qual n (some input) d
            ≡ done (no_error, d'))
        × (d'.output_mute ≡ set d.output_mute k (not (input.as_u32 == 0)))
        × (d'.changes ≡ d.changes ++ record { object = id; addresses = addr ∷ [] } ∷ [])
        × (get_property_data F c raw_driver_ptr raw_driver_ptr id
              (some addr)
              qual_size
              qual
              n
              true
              (some out)
              d'
            ≡ done (
              no_error,
              some (record { size = 4; items = u32 (if input.as_u32 == 0 then 0 else 1) ∷ [] }),
            ))
  unfolding set_property_data get_property_data
  mute-RoundTrip raw id n qual_size addr input out d qual l distinct valid control mute sel large
        host =
      let (k, e, b) = channel id control in
      let m = not (input.as_u32 == 0) in
      let at = find_mute id addr distinct control mute sel in
      let own = ==_self raw in
      let cell : k < length d.output_mute = omega (arith, b, valid.mutes) in
      let room = le→ltb_false n 4 large in
      (
        k,
        muted id k addr m d,
        e,
        rw (own, at, set_value id k addr input d n qual e cell room),
        muted_cells id k addr m d,
        muted_told id k addr m d host,
        rw (
          own,
          at,
          get_value id k addr m out (muted id k addr m d) n qual_size qual l e
              (muted-cell id k addr m d cell) room,
          flip (input.as_u32 == 0),
        ),
      )
