-- ===== src/Coreaudio/Status.antt =====
-- What the driver's entry points answer, and what they check first.
use syfala_test.Common.{ℕ, Bool, ◌==◌}

-- `OSStatus`, with the `E_NOINTERFACE` of `HRESULT`.
pub data Status : Type 0 where
  no_error : Status
  bad_object : Status
  illegal_operation : Status
  unsupported_operation : Status
  unknown_property : Status
  bad_property_size : Status
  unspecified : Status
  no_interface : Status

-- `eq_driver_ptr`, with the pointer to the driver's interface as a number.
abbrev pub eq_driver_ptr : ℕ → ℕ → Bool
eq_driver_ptr raw_driver_ptr driver = driver == raw_driver_ptr
