-- ===== src/Coreaudio/Properties.antt =====
-- The properties of the driver's objects: `PropertyData` of `syfala_coreaudio/src/lib.rs`, and what
-- its functions write and read.
pub mod Plugin
pub mod Device
pub mod Stream
pub mod Control
pub mod Find
pub mod Access
pub mod Sound
pub mod Tables
pub mod Finds
pub mod Reads
pub mod Keeps
pub mod Writes
pub mod Agree
pub mod Mute
use Prim.Native.String.{String}
use syfala_test.Common.{
  ℕ, suc, ◌+◌, ◌*◌, ◌/◌, Bool, Option, none, some, List, [], ◌∷◌, map, take, length, ltb, ◌==◌,
  if◌then◌else◌, Outcome, done, panicked, ◌>>=◌, strict_mul, u32_mod, ℤ,
}
use syfala_test.Coreaudio.Sys.{Sys}
use syfala_test.Coreaudio.State.{Address, Driver}

-- `AudioStreamBasicDescription`, but for the reserved field, which is 0.
pub record BasicDescription : Type 0 where
  pub sample_rate : ℤ
  pub format_id : ℕ
  pub format_flags : ℕ
  pub bytes_per_packet : ℕ
  pub frames_per_packet : ℕ
  pub bytes_per_frame : ℕ
  pub channels_per_frame : ℕ
  pub bits_per_channel : ℕ

-- What is written as the data of a property. The `f64`s are whole numbers; a range is its minimum
-- and its maximum. A `ChannelLayout` has a tag, a bitmap, and the label of its only channel.
pub data Value {ℓ} (F : Type ℓ) : Type ℓ where
  u32 : ℕ → Value F
  f32 : F → Value F
  f64 : ℤ → Value F
  cf_string : String → Value F
  value_range : ℤ → ℤ → Value F
  basic_description : BasicDescription → Value F
  ranged_description : BasicDescription → ℤ → ℤ → Value F
  channel_layout : ℕ → ℕ → ℕ → Value F

abbrev pub u32_size : ℕ
u32_size = 4

-- `CLASS_ID_SIZE` and `OBJECT_ID_SIZE`
abbrev pub class_id_size : ℕ
class_id_size = 4

abbrev pub object_id_size : ℕ
object_id_size = 4

-- The size of the only `AudioChannelLayout`.
abbrev pub layout_size : Sys → ℕ
layout_size c = c.channel_description_size * 1 + c.channel_descriptions_offset

-- `size_of`
unfoldable pub size_of {ℓ} : {F : Type ℓ} → Sys → Value F → ℕ
size_of c (u32 n) = 4
size_of c (f32 x) = 4
size_of c (f64 x) = 8
size_of c (cf_string t) = c.cf_string_size
size_of c (value_range a b) = c.value_range_size
size_of c (basic_description b) = c.basic_description_size
size_of c (ranged_description b x y) = c.ranged_description_size
size_of c (channel_layout tag bitmap label) = layout_size c

-- What a function that writes data has written, and the size that it returns.
pub record Written {ℓ} (F : Type ℓ) : Type ℓ where
  pub size : ℕ
  pub items : List (Value F)

-- What the place for the data holds, read as a number or as a float.
pub record Memory {ℓ} (F : Type ℓ) : Type ℓ where
  pub as_u32 : ℕ
  pub as_f32 : F

pub data Qualifier {ℓ κ} (A : Type ℓ) (B : Type κ) : Type (ℓ ⊔ κ) where
  needed : A → Qualifier A B
  unneeded : B → Qualifier A B

-- The functions are given the statics, the object's id, the address, for writing also the size of
-- the place, and what the place holds. The size of the qualifier data is not used by any.
abbrev pub Writer {ℓ} : Type ℓ → Type ℓ
Writer F = Driver F → ℕ → Address → ℕ → Memory F → Outcome (Written F)

abbrev pub Reader {ℓ} : Type ℓ → Type ℓ
Reader F = Driver F → ℕ → Address → Memory F → Outcome (Driver F)

-- The smallest and the largest size.
abbrev pub SizeRange : Type 0
SizeRange = ℕ × ℕ

abbrev pub s : ℕ → SizeRange
s v = (v, v)

-- `PropertyData`. Qualifier data is a string.
pub record PropertyData {ℓ} (F : Type ℓ) : Type ℓ where
  pub get_data_size : ℕ → Address → SizeRange
  pub write_data : Qualifier ((ℕ → Address → SizeRange) × (String → Writer F)) (Writer F)
  pub read_data : Option (Qualifier (String → Reader F) (Reader F))

module _ {ℓ} {F : Type ℓ} where
  -- `write_get_size`, of values of a type of `item_size` bytes.
  unfoldable pub write_get_size : ℕ → ℕ → List (Value F) → Outcome (Written F)
  write_get_size item_size bytes_available values = if item_size == 0 then panicked else (do
    let items = take (bytes_available / item_size) values
    size ← strict_mul (length items) item_size
    if ltb size u32_mod then done (record { size = size; items = items }) else panicked)

  unfoldable pub write_once_get_size : Sys → Value F → Outcome (Written F)
  unfolding write_get_size
  write_once_get_size c value = write_get_size (size_of c value) (size_of c value) (value ∷ [])

  -- An entry with one value that is found when it is written, of a size that is known.
  abbrev pub computed :
      Sys → ℕ → (Driver F → ℕ → Address → Memory F → Outcome (Value F)) → PropertyData F
  computed c size value = record {
    get_data_size = λ _ _. s size;
    write_data = unneeded λ d id addr _ before. value d id addr before >>= write_once_get_size c;
    read_data = none;
  }

  -- An entry with one value that is always the same.
  abbrev pub fixed : Sys → ℕ → Value F → PropertyData F
  fixed c size value = computed c size λ _ _ _ _. done value

  -- An entry with a list of values of a size, as many as the place holds.
  abbrev pub listing : ℕ → ℕ → (Address → List (Value F)) → PropertyData F
  listing size item_size values = record {
    get_data_size = λ _ _. s size;
    write_data = unneeded λ _ _ addr out_size _. write_get_size item_size out_size (values addr);
    read_data = none;
  }

  -- The entry that a host may also set.
  abbrev pub settable : Reader F → PropertyData F → PropertyData F
  settable reader p = record (p) { read_data = some (unneeded reader) }

  -- The arms of a `match` on the selector: the first that fits.
  unfoldable pub lookup : ℕ → List (ℕ × PropertyData F) → Option (PropertyData F)
  lookup selector [] = none
  lookup selector ((key, p) ∷ arms) =
      let rest = lookup selector arms in if selector == key then some p else rest
