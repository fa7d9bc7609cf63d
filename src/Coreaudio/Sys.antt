-- ===== src/Coreaudio/Sys.antt =====
-- What the driver takes from the headers of CoreAudio and from CoreFoundation, for
-- `syfala_coreaudio/src/lib.rs`: names for numbers, the sizes of C structs, and functions on strings.
use Prim.Native.String.{String}
use syfala_test.Common.{ℕ, ◌<◌, Bool}

-- First the selectors of properties, then scopes and elements, classes, values of properties, and
-- sizes in bytes; `i.to_string()`, and whether `CFStringCompare` finds two strings equal.
pub record Sys : Type 0 where
  pub base_class : ℕ
  pub class : ℕ
  pub owner : ℕ
  pub owned_objects : ℕ
  pub name : ℕ
  pub manufacturer : ℕ
  pub element_name : ℕ
  pub control_list : ℕ
  pub device_list : ℕ
  pub translate_uid_to_device : ℕ
  pub resource_bundle : ℕ
  pub can_be_default_device : ℕ
  pub can_be_default_system_device : ℕ
  pub preferred_channel_layout : ℕ
  pub safety_offset : ℕ
  pub latency : ℕ
  pub device_uid : ℕ
  pub model_uid : ℕ
  pub transport_type : ℕ
  pub related_devices : ℕ
  pub clock_domain : ℕ
  pub device_is_alive : ℕ
  pub device_is_running : ℕ
  pub nominal_sample_rate : ℕ
  pub available_nominal_sample_rates : ℕ
  pub is_hidden : ℕ
  pub zero_time_stamp_period : ℕ
  pub streams : ℕ
  pub direction : ℕ
  pub terminal_type : ℕ
  pub starting_channel : ℕ
  pub stream_latency : ℕ
  pub available_virtual_formats : ℕ
  pub available_physical_formats : ℕ
  pub virtual_format : ℕ
  pub physical_format : ℕ
  pub is_active : ℕ
  pub control_scope : ℕ
  pub control_element : ℕ
  pub scalar_value : ℕ
  pub decibel_value : ℕ
  pub decibel_range : ℕ
  pub convert_scalar_to_decibels : ℕ
  pub convert_decibels_to_scalar : ℕ
  pub boolean_value : ℕ
  pub scope_global : ℕ
  pub scope_output : ℕ
  pub element_main : ℕ
  pub object_class : ℕ
  pub plugin_class : ℕ
  pub device_class : ℕ
  pub stream_class : ℕ
  pub level_control_class : ℕ
  pub volume_control_class : ℕ
  pub boolean_control_class : ℕ
  pub mute_control_class : ℕ
  pub object_unknown : ℕ
  pub transport_type_avb : ℕ
  pub stream_terminal_type_unknown : ℕ
  pub format_linear_pcm : ℕ
  pub format_flags_native_float_packed : ℕ
  pub use_channel_descriptions : ℕ
  pub cf_string_size : ℕ
  pub value_range_size : ℕ
  pub basic_description_size : ℕ
  pub ranged_description_size : ℕ
  pub channel_description_size : ℕ
  pub channel_descriptions_offset : ℕ
  pub to_string : ℕ → String
  pub cf_string_equal : String → String → Bool

-- No struct is empty, and none is large.
pub record IsLaidOut (c : Sys) : Type 0 where
  pub cf_string_size_pos : 0 < c.cf_string_size
  pub cf_string_size_small : c.cf_string_size < 0x1_0000
  pub value_range_size_pos : 0 < c.value_range_size
  pub value_range_size_small : c.value_range_size < 0x1_0000
  pub basic_description_size_pos : 0 < c.basic_description_size
  pub basic_description_size_small : c.basic_description_size < 0x1_0000
  pub ranged_description_size_pos : 0 < c.ranged_description_size
  pub ranged_description_size_small : c.ranged_description_size < 0x1_0000
  pub channel_description_size_pos : 0 < c.channel_description_size
  pub channel_description_size_small : c.channel_description_size < 0x1_0000
  pub channel_descriptions_offset_small : c.channel_descriptions_offset < 0x1_0000
