-- ===== src/Coreaudio/Objects.antt =====
-- The object tree of the driver, the first constants of `syfala_coreaudio/src/lib.rs`: the plug-in,
-- the device, its stream, and a mute and a volume control for the master and for each channel.
use syfala_test.Common.{
  ℕ, ◌+◌, ◌-◌, ◌*◌, ◌/◌, ◌%◌, ◌≤◌, ◌<◌, ◌≡◌, ◌↔◌, Bool, true, false, not, ◌&&◌, leb, ◌==◌,
  if◌then◌else◌, Outcome, done, strict_sub, ◌>>=◌, arith, le→ltb_false,
}

abbrev pub n_channels : ℕ
n_channels = 16

abbrev pub n_controls : ℕ
n_controls = (n_channels + 1) * 2

abbrev pub n_device_owned_objs : ℕ
n_device_owned_objs = n_controls + 1

abbrev pub plugin_id : ℕ
plugin_id = 1

abbrev pub device_id : ℕ
device_id = 2

abbrev pub stream_id : ℕ
stream_id = 3

abbrev pub first_ctrl_id : ℕ
first_ctrl_id = 4

abbrev pub last_ctrl_id : ℕ
last_ctrl_id = n_controls + 3

unfoldable pub audio_object_is_control : ℕ → Bool
audio_object_is_control id = leb first_ctrl_id id && leb id last_ctrl_id

-- The lowest bit is set.
unfoldable pub control_is_volume : ℕ → Bool
control_is_volume id = not (id % 2 == 0)

unfoldable pub control_channel_index : ℕ → Outcome ℕ
control_channel_index id = do offset ← strict_sub id first_ctrl_id; done (offset / 2)

-- The blueprint: mute controls at 4 + 2 * N, volume controls at 5 + 2 * N.
unfoldable pub control_id : ℕ → Bool → ℕ
control_id channel is_volume = 4 + 2 * channel + (if is_volume then 1 else 0)

-- The position of a control, out of the bounds of its id.
pub channel_index : (id : ℕ) → 4 ≤ id → control_channel_index id ≡ done ((id - 4) / 2)
unfolding control_channel_index
channel_index id h = rw (le→ltb_false id 4 h)

pub control-bounds : (id : ℕ) → audio_object_is_control id ≡ true → (4 ≤ id) × (id ≤ 37)
unfolding audio_object_is_control
control-bounds id h = ground arith

pub bounds-control : (id : ℕ) → 4 ≤ id → id ≤ 37 → audio_object_is_control id ≡ true
unfolding audio_object_is_control
bounds-control id g h = ground arith

id-split : (id : ℕ) → 4 ≤ id → id ≡ control_id ((id - 4) / 2) (control_is_volume id)
unfolding control_id control_is_volume
id-split id h = ground arith

id-bounds : (id c : ℕ) (v : Bool) → id ≡ control_id c v → c ≤ n_channels → (4 ≤ id) × (id ≤ 37)
unfolding control_id
id-bounds id c true e h = ground arith
id-bounds id c false e h = ground arith

-- An id is that of a control exactly if its channel index is that of a channel or 0, the master,
-- and the id is the one of the blueprint for the channel and the kind that the driver reads off it:
-- the controls are one volume and one mute control for each of the master and the channels.
pub control_ids :
    (id : ℕ)
    → (audio_object_is_control id ≡ true) ↔ (
        (c : ℕ) × (c ≤ n_channels)
        × (control_channel_index id ≡ done c)
        × (id ≡ control_id c (control_is_volume id)))
control_ids id = (
  (λ h.
      let b : (4 ≤ id) × (id ≤ 37) = control-bounds id h in
      ((id - 4) / 2, ground arith, channel_index id b.0, id-split id b.0)),
  λ p.
      let b : (4 ≤ id) × (id ≤ 37) = id-bounds id p.0 (control_is_volume id) p.3 p.1 in
      bounds-control id b.0 b.1,
)

pub channel :
    (id : ℕ)
    → audio_object_is_control id ≡ true
    → (k : ℕ) × (control_channel_index id ≡ done k) × (k < n_channels + 1)
channel id h = let (k, b, e, _) = (control_ids id).0 h in (k, e, omega (arith, b))
