-- ===== src/Coreaudio/Tests/Macos.antt =====
-- The constants of the headers of macOS, and floats that meet the laws.
use Prim.Native.Nat.{max, min}
use syfala_test.Common.{
  ℕ, ◌+◌, ◌-◌, ◌*◌, ◌/◌, Bool, refl, true, false, Option, none, some, ltb, ◌==◌, arith,
}
use syfala_test.Coreaudio.Volume.{Float32, IsIeee}
use syfala_test.Coreaudio.Sys.{Sys, IsLaidOut}
use syfala_test.Coreaudio.Properties.Mute.{IsDistinct}

-- The pointer to the driver's interface.
abbrev pub raw : ℕ
raw = 0x1000

-- The names of the headers, four letters each.
abbrev pub macos : Sys
macos = record {
  base_class = 0x62636C73;
  class = 0x636C6173;
  owner = 0x73746476;
  owned_objects = 0x6F776E64;
  name = 0x6C6E616D;
  manufacturer = 0x6C6D616B;
  element_name = 0x6C63686E;
  control_list = 0x6374726C;
  device_list = 0x64657623;
  translate_uid_to_device = 0x75696464;
  resource_bundle = 0x72737263;
  can_be_default_device = 0x64666C74;
  can_be_default_system_device = 0x73666C74;
  preferred_channel_layout = 0x73726E64;
  safety_offset = 0x73616674;
  latency = 0x6C746E63;
  device_uid = 0x75696420;
  model_uid = 0x6D756964;
  transport_type = 0x7472616E;
  related_devices = 0x616B696E;
  clock_domain = 0x636C6B64;
  device_is_alive = 0x6C69766E;
  device_is_running = 0x676F696E;
  nominal_sample_rate = 0x6E737274;
  available_nominal_sample_rates = 0x6E737223;
  is_hidden = 0x6869646E;
  zero_time_stamp_period = 0x72696E67;
  streams = 0x73746D23;
  direction = 0x73646972;
  terminal_type = 0x7465726D;
  starting_channel = 0x7363686E;
  stream_latency = 0x6C746E63;
  available_virtual_formats = 0x73666D61;
  available_physical_formats = 0x70667461;
  virtual_format = 0x73666D74;
  physical_format = 0x70667420;
  is_active = 0x73616374;
  control_scope = 0x63736370;
  control_element = 0x63656C6D;
  scalar_value = 0x6C637376;
  decibel_value = 0x6C636476;
  decibel_range = 0x6C636472;
  convert_scalar_to_decibels = 0x6C637364;
  convert_decibels_to_scalar = 0x6C636473;
  boolean_value = 0x6263766C;
  scope_global = 0x676C6F62;
  scope_output = 0x6F757470;
  element_main = 0;
  object_class = 0x616F626A;
  plugin_class = 0x61706C67;
  device_class = 0x61646576;
  stream_class = 0x61737472;
  level_control_class = 0x6C65766C;
  volume_control_class = 0x766C6D65;
  boolean_control_class = 0x746F676C;
  mute_control_class = 0x6D757465;
  object_unknown = 0;
  transport_type_avb = 0x65617662;
  stream_terminal_type_unknown = 0;
  format_linear_pcm = 0x6C70636D;
  format_flags_native_float_packed = 9;
  use_channel_descriptions = 0;
  cf_string_size = 8;
  value_range_size = 16;
  basic_description_size = 40;
  ranged_description_size = 56;
  channel_description_size = 20;
  channel_descriptions_offset = 12;
  to_string = λ n. "1";
  cf_string_equal = λ s t. true;
}

pub macos-IsLaidOut : IsLaidOut macos
macos-IsLaidOut = record {
  cf_string_size_pos = omega arith;
  cf_string_size_small = omega arith;
  value_range_size_pos = omega arith;
  value_range_size_small = omega arith;
  basic_description_size_pos = omega arith;
  basic_description_size_small = omega arith;
  ranged_description_size_pos = omega arith;
  ranged_description_size_small = omega arith;
  channel_description_size_pos = omega arith;
  channel_description_size_small = omega arith;
  channel_descriptions_offset_small = omega arith;
}

pub macos-IsDistinct : IsDistinct macos
macos-IsDistinct = record {
  not_owner = refl;
  not_owned_objects = refl;
  not_scope = refl;
  not_element = refl;
  not_base_class = refl;
  not_class = refl;
}

-- Whole levels in decibels, counted from -80.
instance abbrev pub levels : Float32 ℕ
levels = record {
  nought = 80;
  one = 81;
  ten = 90;
  twentieth = 80;
  minus_eighty = 0;
  eq = ◌==◌;
  lt = ltb;
  sub = ◌-◌;
  mul = ◌*◌;
  div = ◌/◌;
  mul_add = λ a b c. a * b + c;
  powf = ◌*◌;
  log10 = λ a. a;
  sqrt = λ a. a;
  fmin = min;
  fmax = max;
}

-- The same levels with a NaN, which is `none`.
abbrev pub Level : Type 0
Level = Option ℕ

abbrev on_levels : (ℕ → ℕ → ℕ) → Level → Level → Level
on_levels g (some a) (some b) = some (g a b)
on_levels g _ _ = none

abbrev test_levels : (ℕ → ℕ → Bool) → Level → Level → Bool
test_levels t (some a) (some b) = t a b
test_levels t _ _ = false

abbrev choose_level : (ℕ → ℕ → ℕ) → Level → Level → Level
choose_level g (some a) (some b) = some (g a b)
choose_level g (some a) none = some a
choose_level g none y = y

abbrev accumulate : Level → Level → Level → Level
accumulate a b c = on_levels ◌+◌ (on_levels ◌*◌ a b) c

instance abbrev pub nan_levels : Float32 Level
nan_levels = record {
  nought = some 80;
  one = some 81;
  ten = some 90;
  twentieth = some 80;
  minus_eighty = some 0;
  eq = test_levels ◌==◌;
  lt = test_levels ltb;
  sub = on_levels ◌-◌;
  mul = on_levels ◌*◌;
  div = on_levels ◌/◌;
  mul_add = accumulate;
  powf = on_levels ◌*◌;
  log10 = λ a. a;
  sqrt = λ a. a;
  fmin = choose_level min;
  fmax = choose_level max;
}

pub nan_levels-IsIeee : IsIeee Level
nan_levels-IsIeee = ground arith
