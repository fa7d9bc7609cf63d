-- ===== src/Coreaudio/Lifecycle.antt =====
-- The life of the plug-in, the first entry points of `syfala_coreaudio/src/lib.rs`: the factory,
-- the reference count, and the device management that the driver only checks. Pointers are numbers,
-- 0 the null pointer; a `UUID` is the number its bytes spell. The panic of a strict operation in a
-- function with a C interface aborts the process: it is `panicked`.
pub mod References
use syfala_test.Common.{
  ℕ, suc, ◌+◌, ◌-◌, ◌%◌, Bool, true, false, not, ◌||◌, Outcome, done, panicked, ◌>>=◌, ltb, ◌==◌,
  if◌then◌else◌, u32_mod, Option, none, some,
}
use syfala_test.Coreaudio.Objects.{device_id}
use syfala_test.Coreaudio.Status.{
  Status, no_error, bad_object, illegal_operation, unsupported_operation, no_interface,
  eq_driver_ptr,
}

abbrev pub audio_server_plugin_type_uuid : ℕ
audio_server_plugin_type_uuid = 0x443A_BAB8_E7B3_491A_B985_BEB9_1870_30DB

abbrev pub i_unknown_uuid : ℕ
i_unknown_uuid = 0xC000_0000_0000_0046

abbrev pub asp_driver_interface_uuid : ℕ
asp_driver_interface_uuid = 0xEEA5_773D_CC43_49F1_8E00_8F96_E7D2_3B17

-- `AudioServerPlugInHostInterface`: whether it has the callback `PropertiesChanged`.
pub record Host : Type 0 where
  pub has_properties_changed : Bool

-- `strict_add(1)` and `strict_sub(1)` of `u32`.
abbrev pub strict_increment : ℕ → Outcome ℕ
strict_increment n = if ltb (n + 1) u32_mod then done (n + 1) else panicked

abbrev pub strict_decrement : ℕ → Outcome ℕ
strict_decrement n = if n == 0 then panicked else done (n - 1)

-- `fetch_add(1)` and `fetch_sub(1)` on an `AtomicU32`: what it holds afterwards.
abbrev pub wrapping_increment : ℕ → ℕ
wrapping_increment n = (n + 1) % u32_mod

abbrev pub wrapping_decrement : ℕ → ℕ
wrapping_decrement n = (n + (u32_mod - 1)) % u32_mod

module _ (raw_driver_ptr : ℕ) where
  -- `create`: the pointer to the driver's interface, or null.
  unfoldable pub create : ℕ → ℕ
  create requested_type_uuid =
      if requested_type_uuid == audio_server_plugin_type_uuid then raw_driver_ptr else 0

  -- `query_interface`: its answer, what it writes to the place for the interface, and the count.
  unfoldable pub query_interface : ℕ → ℕ → ℕ → ℕ → Status × Option ℕ × ℕ
  query_interface driver uuid interface count =
      if not (eq_driver_ptr raw_driver_ptr driver)
      then (bad_object, none, count)
      else (if interface == 0
          then (illegal_operation, none, count)
          else (if (uuid == i_unknown_uuid) || (uuid == asp_driver_interface_uuid)
              then (no_error, some raw_driver_ptr, wrapping_increment count)
              else (no_interface, none, count)))

  -- `add_ref` and `release`: the answer, and the count.
  unfoldable pub add_ref : ℕ → ℕ → Outcome (ℕ × ℕ)
  add_ref driver count =
      if not (eq_driver_ptr raw_driver_ptr driver)
      then done (0, count)
      else (do res ← strict_increment count; done (res, wrapping_increment count))

  unfoldable pub release : ℕ → ℕ → Outcome (ℕ × ℕ)
  release driver count =
      if not (eq_driver_ptr raw_driver_ptr driver)
      then done (0, count)
      else (do res ← strict_decrement count; done (res, wrapping_decrement count))

  -- `initialize`: `HOST` is set once, by the first host that is not null.
  unfoldable pub initialize : ℕ → Option Host → Option Host → Status × Option Host
  initialize driver host (some known) =
      if not (eq_driver_ptr raw_driver_ptr driver)
      then (bad_object, some known)
      else (no_error, some known)
  initialize driver host none =
      if not (eq_driver_ptr raw_driver_ptr driver) then (bad_object, none) else (no_error, host)

  -- `create_device` and `destroy_device`
  unfoldable pub create_device : ℕ → Status
  create_device driver =
      if not (eq_driver_ptr raw_driver_ptr driver) then bad_object else unsupported_operation

  unfoldable pub destroy_device : ℕ → ℕ → Status
  destroy_device driver object =
      if not (eq_driver_ptr raw_driver_ptr driver) then bad_object else unsupported_operation

  -- The checks of an entry point about the device.
  unfoldable pub check_device : ℕ → ℕ → Status
  check_device driver object =
      if not (eq_driver_ptr raw_driver_ptr driver)
      then bad_object
      else (if not (object == device_id) then bad_object else no_error)

  unfoldable pub add_device_client : ℕ → ℕ → Status
  unfolding check_device
  add_device_client driver object = check_device driver object

  unfoldable pub remove_device_client : ℕ → ℕ → Status
  unfolding check_device
  remove_device_client driver object = check_device driver object

  unfoldable pub perform_device_config_change : ℕ → ℕ → Status
  unfolding check_device
  perform_device_config_change driver object = check_device driver object

  unfoldable pub abort_device_config_change : ℕ → ℕ → Status
  unfolding check_device
  abort_device_config_change driver object = check_device driver object
