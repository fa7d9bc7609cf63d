-- ===== src/Coreaudio/Properties/Keeps.antt =====
-- Which entries of the driver's tables a host may set, and what stays as it is when it does.
pub mod All
use syfala_test.Common.{
  ℕ, ◌<◌, ◌≡◌, refl, Bool, true, false, not, ◌==◌, inl, inr, ◌⊎◌, none, some, List, [], ◌∷◌, ◌++◌,
  length, length-set, get_elem?_within, set, if◌then◌else◌, done, arith,
}
use syfala_test.Coreaudio.Objects.{audio_object_is_control, channel}
use syfala_test.Coreaudio.Volume.{Float32, norm_to_gain, db_to_gain}
use syfala_test.Coreaudio.Sys.{Sys}
use syfala_test.Coreaudio.State.{Address, Driver, IsValid, notify, calls_host, store}
use syfala_test.Coreaudio.Properties.{PropertyData, Reader, Memory, unneeded}
use syfala_test.Coreaudio.Properties.Plugin.{plugin_arms, translate_uid}
use syfala_test.Coreaudio.Properties.Device.{
  element_name_data, scoped_arms, identity_arms, running_arms, preferred_layout,
}
use syfala_test.Coreaudio.Properties.Stream.{stream_arms, set_is_active}
use syfala_test.Coreaudio.Properties.Control.{
  common_arms, volume_arms, mute_arms, set_mute, set_gain,
}
use syfala_test.Coreaudio.Properties.Finds.{Holds}

-- Setting a property concerns neither the host, the references and the IO, nor how many controls
-- there are.
pub record Keeps {ℓ} {F : Type ℓ} (d d' : Driver F) : Type 0 where
  pub host : d'.host ≡ d.host
  pub references : d'.plugin_ref_count ≡ d.plugin_ref_count
  pub io : d'.device_io ≡ d.device_io
  pub volumes : length d'.output_volume ≡ length d.output_volume
  pub mutes : length d'.output_mute ≡ length d.output_mute

pub store-eq {ℓ} :
    {A : Type ℓ} (cells : List A) (k : ℕ) (v : A)
    → k < length cells
    → store cells k v ≡ done (set cells k v)
unfolding store
store-eq cells k v h = let (a, e) = get_elem?_within cells k h in rw e

module _ {ℓ} {F : Type ℓ} where
  pub Keeps-refl : (d : Driver F) → Keeps d d
  Keeps-refl d = record { host = refl; references = refl; io = refl; volumes = refl; mutes = refl }

  if-Keeps : (b : Bool) (d x y : Driver F) → Keeps d x → Keeps d y → Keeps d (if b then x else y)
  if-Keeps true d x y h g = h
  if-Keeps false d x y h g = g

  notify-Keeps :
      (d d' : Driver F) (id : ℕ) (addrs : List Address) → Keeps d d' → Keeps d (notify id addrs d')
  unfolding notify
  notify-Keeps d d' id addrs k =
      let changes = d'.changes ++ record { object = id; addresses = addrs } ∷ [] in
      if-Keeps (calls_host d'.host) d (record (d') { changes = changes }) d'
        (record {
          host = k.host;
          references = k.references;
          io = k.io;
          volumes = k.volumes;
          mutes = k.mutes;
        })
        k

  -- The entry cannot be set, or a function that keeps the rest reads what is set.
  abbrev pub IsKeeping : Driver F → ℕ → PropertyData F → Type ℓ
  IsKeeping d id p =
      (p.read_data ≡ none)
      ⊎ ((reader : Reader F) × (p.read_data ≡ some (unneeded reader))
          × ((addr : Address) (input : Memory F)
              → (d' : Driver F) × (reader d id addr input ≡ done d') × Keeps d d'))

module _ {ℓ} {F : Type ℓ} ⦃f : Float32 F⦄ (c : Sys) (d : Driver F) (id : ℕ) where
  pub set_is_active-Keeps :
      (addr : Address) (input : Memory F)
      → (d' : Driver F) × (set_is_active c d id addr input ≡ done d') × Keeps d d'
  unfolding set_is_active
  set_is_active-Keeps addr input =
      let d1 = record (d) { is_output_stream_active = not (input.as_u32 == 0) } in
      (
        _,
        refl,
        notify-Keeps d d1 id (addr ∷ [])
            (record { host = refl; references = refl; io = refl; volumes = refl; mutes = refl }),
      )

  pub set_mute-Keeps :
      audio_object_is_control id ≡ true
      → IsValid d
      → (addr : Address) (input : Memory F)
      → (d' : Driver F) × (set_mute c d id addr input ≡ done d') × Keeps d d'
  unfolding set_mute
  set_mute-Keeps control valid addr input =
      let (k, e, b) = channel id control in
      let v = not (input.as_u32 == 0) in
      let d1 = record (d) { output_mute = set d.output_mute k v } in
      (
        notify id (addr ∷ []) d1,
        rw (e, store-eq d.output_mute k v (omega (arith, b, valid.mutes))),
        notify-Keeps d d1 id (addr ∷ []) (record {
          host = refl;
          references = refl;
          io = refl;
          volumes = refl;
          mutes = length-set d.output_mute k v;
        }),
      )

  pub set_gain-Keeps :
      (to_gain : F → F) (other : ℕ)
      → audio_object_is_control id ≡ true
      → IsValid d
      → (addr : Address) (input : Memory F)
      → (d' : Driver F) × (set_gain c to_gain other d id addr input ≡ done d') × Keeps d d'
  unfolding set_gain
  set_gain-Keeps to_gain other control valid addr input =
      let (k, e, b) = channel id control in
      let v = to_gain input.as_f32 in
      let d1 = record (d) { output_volume = set d.output_volume k v } in
      let both = addr ∷ record (addr) { selector = other } ∷ [] in
      (
        notify id both d1,
        rw (e, store-eq d.output_volume k v (omega (arith, b, valid.volumes))),
        notify-Keeps d d1 id both (record {
          host = refl;
          references = refl;
          io = refl;
          volumes = length-set d.output_volume k v;
          mutes = refl;
        }),
      )
