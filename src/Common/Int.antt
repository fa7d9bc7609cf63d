-- ===== src/Common/Int.antt =====
-- The signed integers of the source (`i64`, `isize`) as sign and size.
use Prim.Native.Nat.{ℕ, suc, ◌-◌, ◌^◌}
use mathlib.Core.Bool.{Bool, true, false}
use mathlib.Core.Option.{Option, none, some}
use syfala_test.Common.Test.{ltb, leb, if◌then◌else◌}

-- `negsuc n` is -(n + 1).
pub data ℤ : Type 0 where
  pos : ℕ → ℤ
  negsuc : ℕ → ℤ

-- `is_negative`
abbrev pub is_negative : ℤ → Bool
is_negative (pos n) = false
is_negative (negsuc n) = true

-- `unsigned_abs`
abbrev pub unsigned_abs : ℤ → ℕ
unsigned_abs (pos n) = n
unsigned_abs (negsuc n) = suc n

-- `u64::checked_signed_diff`: a - b, if it is an `i64`.
unfoldable pub checked_signed_diff : ℕ → ℕ → Option ℤ
checked_signed_diff a b =
    if leb b a
    then (if ltb (a - b) (2 ^ 63) then some (pos (a - b)) else none)
    else (if leb (b - a) (2 ^ 63) then some (negsuc (b - a - 1)) else none)
