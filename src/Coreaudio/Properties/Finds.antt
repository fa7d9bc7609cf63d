-- ===== src/Coreaudio/Properties/Finds.antt =====
-- What `find_property_data` finds: what holds of all entries in the tables holds of what is found,
-- for any object and address.
use mathlib.Core.Option.{some-injective}
use syfala_test.Common.{
  subst, ℕ, ◌≡◌, sym, ◌∙◌, Bool, true, false, not, ◌||◌, ◌&&◌, inl, inr, Option, none, some, List,
  [], ◌∷◌, ◌++◌, Each, Each-append, ◌==◌, leb, if◌then◌else◌, Bool-cases, done,
}
use syfala_test.Coreaudio.Objects.{
  n_channels, plugin_id, device_id, stream_id, audio_object_is_control, control_is_volume, channel,
}
use syfala_test.Coreaudio.Volume.{Float32}
use syfala_test.Coreaudio.Sys.{Sys}
use syfala_test.Coreaudio.State.{Address}
use syfala_test.Coreaudio.Properties.{PropertyData, lookup}
use syfala_test.Coreaudio.Properties.Plugin.{find_plugin_property_data, plugin_arms}
use syfala_test.Coreaudio.Properties.Device.{
  find_device_property_data, global_or_output, scoped_arms, identity_arms, running_arms,
  element_name_data, or_else,
}
use syfala_test.Coreaudio.Properties.Stream.{find_stream_property_data, stream_arms}
use syfala_test.Coreaudio.Properties.Control.{
  find_control_property_data, common_arms, volume_arms, mute_arms,
}
use syfala_test.Coreaudio.Properties.Find.{Found, found, missing, of_object, find_property_data}

-- A property of all entries in the tables, those of controls for the id of a control.
pub record Holds {ℓ} {F : Type ℓ} ⦃f : Float32 F⦄ (c : Sys) (id : ℕ) (P : PropertyData F → Type ℓ)
    : Type ℓ where
  pub on_plugin : Each (λ (arm : ℕ × PropertyData F). P arm.1) (plugin_arms c)
  pub on_element_name : P (element_name_data c)
  pub on_scoped : Each (λ (arm : ℕ × PropertyData F). P arm.1) (scoped_arms c)
  pub on_identity : Each (λ (arm : ℕ × PropertyData F). P arm.1) (identity_arms c)
  pub on_running : Each (λ (arm : ℕ × PropertyData F). P arm.1) (running_arms c)
  pub on_stream : Each (λ (arm : ℕ × PropertyData F). P arm.1) (stream_arms c)
  pub on_common :
      audio_object_is_control id ≡ true
      → Each (λ (arm : ℕ × PropertyData F). P arm.1) (common_arms c)
  pub on_volume :
      audio_object_is_control id ≡ true
      → Each (λ (arm : ℕ × PropertyData F). P arm.1) (volume_arms c)
  pub on_mute :
      audio_object_is_control id ≡ true → Each (λ (arm : ℕ × PropertyData F). P arm.1) (mute_arms c)

module _ {ℓ} {F : Type ℓ} ⦃f : Float32 F⦄ (c : Sys) (id : ℕ) (P : PropertyData F → Type ℓ) where
  abbrev OfArm : ℕ × PropertyData F → Type ℓ
  OfArm arm = P arm.1

  -- What a search may find is sound.
  abbrev Finds : Option (PropertyData F) → Type ℓ
  Finds o = (p : PropertyData F) → o ≡ some p → P p

  none-Finds : Finds none
  none-Finds p e = cc

  some-Finds : (q : PropertyData F) → P q → Finds (some q)
  some-Finds q h p e = subst P (some-injective q p e) h

  lookup-Finds :
      (selector : ℕ) (arms : List (ℕ × PropertyData F))
      → Each OfArm arms
      → Finds (lookup selector arms)
  unfolding lookup
  lookup-Finds selector [] h p e = cc
  lookup-Finds selector ((key, q) ∷ arms) h p e = elim (Bool-cases (selector == key)) [
    | inl g ↦
        let same : lookup selector ((key, q) ∷ arms) ≡ some q = rw g in
        some-Finds q h.0 p (sym same ∙ e)
    | inr g ↦
        let rest : lookup selector ((key, q) ∷ arms) ≡ lookup selector arms = rw g in
        lookup-Finds selector arms h.1 p (sym rest ∙ e)
  ]

  if-Finds :
      (b : Bool) (x y : Option (PropertyData F)) → Finds x → Finds y → Finds (if b then x else y)
  if-Finds true x y h g = h
  if-Finds false x y h g = g

  or_else-Finds : (x y : Option (PropertyData F)) → Finds x → Finds y → Finds (or_else x y)
  or_else-Finds none y h g = g
  or_else-Finds (some p) y h g = h

  module _ (h : Holds c id P) where
    plugin-Finds : (addr : Address) → Finds (find_plugin_property_data c addr)
    unfolding find_plugin_property_data
    plugin-Finds addr =
        if-Finds (not (addr.scope == c.scope_global) || not (addr.element == c.element_main)) none
          (lookup addr.selector (plugin_arms c)) none-Finds
          (lookup-Finds addr.selector (plugin_arms c) h.on_plugin)

    device-Finds : (addr : Address) → Finds (find_device_property_data c addr)
    unfolding find_device_property_data
    device-Finds addr =
        let scoped = lookup addr.selector (scoped_arms c) in
        let arms = identity_arms c ++ running_arms c in
        if-Finds ((addr.selector == c.element_name) && leb addr.element n_channels)
          (some (element_name_data c))
          (or_else (if global_or_output c addr then scoped else none) (lookup addr.selector arms))
          (some-Finds (element_name_data c) h.on_element_name)
          (or_else-Finds (if global_or_output c addr then scoped else none)
            (lookup addr.selector arms)
            (if-Finds (global_or_output c addr) scoped none
              (lookup-Finds addr.selector (scoped_arms c) h.on_scoped) none-Finds)
            (lookup-Finds addr.selector arms
              (Each-append OfArm (identity_arms c) (running_arms c) h.on_identity h.on_running)))

    stream-Finds : (addr : Address) → Finds (find_stream_property_data c addr)
    unfolding find_stream_property_data
    stream-Finds addr = lookup-Finds addr.selector (stream_arms c) h.on_stream

    kind_arms-Holds :
        (b : Bool)
        → audio_object_is_control id ≡ true
        → Each OfArm (if b then volume_arms c else mute_arms c)
    kind_arms-Holds true control = h.on_volume control
    kind_arms-Holds false control = h.on_mute control

    control-Finds :
        (addr : Address) (is_volume : Bool) (k : ℕ)
        → audio_object_is_control id ≡ true
        → Finds (find_control_property_data c is_volume k addr)
    unfolding find_control_property_data
    control-Finds addr is_volume k control =
        let kind = if is_volume then volume_arms c else mute_arms c in
        lookup-Finds addr.selector (common_arms c ++ kind) (
          Each-append OfArm (common_arms c) kind (h.on_common control)
            (kind_arms-Holds is_volume control))

    -- What is found of an object is sound.
    abbrev FoundHolds : Found F → Type ℓ
    FoundHolds r = (p : PropertyData F) → r ≡ found p → P p

    of_object-FoundHolds : (o : Option (PropertyData F)) → Finds o → FoundHolds (of_object o)
    of_object-FoundHolds none h p e = cc
    of_object-FoundHolds (some q) h p e = let g : some q ≡ some p = cc in h p g

    pub find-Total :
        (addr : Address) → (r : Found F) × (find_property_data c id addr ≡ done r) × FoundHolds r
    unfolding find_property_data
    find-Total addr = elim (Bool-cases (id == plugin_id)) [
      | inl e ↦
          (_, rw e, of_object-FoundHolds (find_plugin_property_data c addr) (plugin-Finds addr))
      | inr e ↦ elim (Bool-cases (id == device_id)) [
        | inl g ↦ (
          _,
          rw (e, g),
          of_object-FoundHolds (find_device_property_data c addr) (device-Finds addr),
        )
        | inr g ↦ elim (Bool-cases (id == stream_id)) [
          | inl k ↦ (
            _,
            rw (e, g, k),
            of_object-FoundHolds (find_stream_property_data c addr) (stream-Finds addr),
          )
          | inr k ↦ elim (Bool-cases (audio_object_is_control id)) [
            | inl m ↦
                let (i, at, b) = channel id m in
                (
                  _,
                  rw (e, g, k, m, at),
                  of_object-FoundHolds (find_control_property_data c (control_is_volume id) i addr)
                      (control-Finds addr (control_is_volume id) i m),
                )
            | inr m ↦ (missing false, rw (e, g, k, m), λ p q. cc)
          ]
        ]
      ]
    ]
